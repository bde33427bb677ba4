-- ===== src/Net/Search/Replies.antt =====
-- What the phone's reply to a search tells the clients.
use connui_cellular.Prelude.{
  ◌⊎◌, ◌≢◌, map, ℕ, zero, suc, ◌+◌, ◌≡◌, false, List, [], ◌∷◌, ◌++◌, nat_eq, Option, none, some,
}
use mathlib.Core.List.{reverse}
use connui_cellular.Net.{Network}
use connui_cellular.Net.Search.{Search, Arrays, Reply, error, arrays, length, networks, net_list_cb}

abbrev pub get_elem? {ℓ} : {A : Type ℓ} → List A → ℕ → Option A
get_elem? [] i = none
get_elem? (x ∷ xs) zero = some x
get_elem? (x ∷ xs) (suc i) = get_elem? xs i

-- The `i`-th network is made of the `i`-th entries of the arrays of numbers, and of what is read at
-- the index `i` of the others.
pub record IsAt (a : Arrays) (i : ℕ) (n : Network) : Type 0 where
  pub status : get_elem? a.status i ≡ some n.service_status
  pub network_type : get_elem? a.network_type i ≡ some n.network_type
  pub umts_avail : get_elem? a.umts_avail i ≡ some n.umts_avail
  pub operator_code : a.operator_code i ≡ n.operator_code
  pub country_code : a.country_code i ≡ n.country_code
  pub operator_name : a.operator_name i ≡ n.operator_name

abbrev read_networks : Arrays → List Network
read_networks a = networks a 0 a.status a.network_type a.umts_avail

-- The network `j` of a loop that starts at the index `i`.
record IsRead (a : Arrays) (i j : ℕ) (ss ts us : List ℕ) (n : Network) : Type 0 where
  status : get_elem? ss j ≡ some n.service_status
  network_type : get_elem? ts j ≡ some n.network_type
  umts_avail : get_elem? us j ≡ some n.umts_avail
  operator_code : a.operator_code (j + i) ≡ n.operator_code
  country_code : a.country_code (j + i) ≡ n.country_code
  operator_name : a.operator_name (j + i) ≡ n.operator_name

abbrev pub tell : List Network → ℕ × ℕ → ℕ × ℕ × List Network
tell l (cb, user_data) = (cb, user_data, l)

-- What a reply to the search does.
pub record IsReplied (s : Search) : Type 0 where
  -- each client is told of the networks that the arrays make, once, and forgotten
  pub found :
      (a : Arrays)
      → length a.status ≡ length a.umts_avail
      → length a.status ≡ length a.network_type
      → (l : List Network) × ((net_list_cb (arrays a) s).told
          ≡ reverse (map (tell l) s.net_list_cbs) ++ s.told)
        × ((net_list_cb (arrays a) s).net_list_cbs ≡ [])
        × (length l ≡ length a.status)
        × ((i : ℕ) (n : Network) → get_elem? l i ≡ some n → IsAt a i n)
  -- with an error each is told of no network, and stays, though no call is outstanding
  pub failed :
      ((net_list_cb error s).told ≡ reverse (map (tell []) s.net_list_cbs) ++ s.told)
      × ((net_list_cb error s).net_list_cbs ≡ s.net_list_cbs)
  -- with arrays of different lengths nobody is told, and all stay
  pub uneven :
      (a : Arrays)
      → (length a.status ≢ length a.umts_avail) ⊎ (length a.status ≢ length a.network_type)
      → ((net_list_cb (arrays a) s).told ≡ s.told)
        × ((net_list_cb (arrays a) s).net_list_cbs ≡ s.net_list_cbs)
  pub ended : (r : Reply) → (net_list_cb r s).get_available_network_call ≡ false
