-- ===== src/Net/Search.antt =====
-- lib/net.c: the search for networks, one call of the phone that all the clients of that time share.
-- The clients are pairs of a function and its data, kept by connui-utils' lists.
pub mod Waiting
pub mod Replies
use connui_cellular.Prelude.{
  ℕ, suc, ◌+◌, Bool, true, false, not, ◌&&◌, Option, none, some, List, [], ◌∷◌, ◌++◌, map, String,
  ◌==◌, nat_eq, if◌then◌else◌, is_some,
}
use connui_cellular.Net.{Network}

-- The part of the context that the search works on, and what the phone and the clients saw of it.
pub record Search : Type 0 where
  pub net_list_cbs : List (ℕ × ℕ)
  pub get_available_network_call : Bool
  pub begun : ℕ  -- how many calls of the phone were begun
  pub stopped : ℕ  -- how many were cancelled
  pub told : List (ℕ × ℕ × List Network)  -- the calls of the clients, the latest first

abbrev pub no_search : Search
no_search = record {
  net_list_cbs = [];
  get_available_network_call = false;
  begun = 0;
  stopped = 0;
  told = [];
}

-- What `net_list_cb` is given: three arrays of numbers, and for the other three what `g_array_index`
-- reads at an index. Their lengths are not looked at, and the reads may be out of bounds, so what is read
-- is whatever the memory holds there.
pub record Arrays : Type 0 where
  pub status : List ℕ
  pub operator_code : ℕ → Option String
  pub country_code : ℕ → Option String
  pub operator_name : ℕ → Option String
  pub network_type : List ℕ
  pub umts_avail : List ℕ

pub data Reply : Type 0 where
  error : Reply  -- a GError
  absent : Reply  -- one of the arrays is NULL
  arrays : Arrays → Reply

abbrev pub length {ℓ} : {A : Type ℓ} → List A → ℕ
length [] = 0
length (x ∷ xs) = suc (length xs)

-- The loop of `net_list_cb`, with the arrays of numbers from the index `i` on.
unfoldable pub networks : Arrays → ℕ → List ℕ → List ℕ → List ℕ → List Network
networks a i (s ∷ ss) (t ∷ ts) (u ∷ us) =
    record {
      service_status = s;
      country_code = a.country_code i;
      operator_code = a.operator_code i;
      operator_name = a.operator_name i;
      umts_avail = u;
      network_type = t;
    }
    ∷ networks a (suc i) ss ts us
networks a i _ _ _ = []

-- connui_utils_notify_notify_POINTER, in the order of the list
unfoldable pub notify_all :
    List Network → List (ℕ × ℕ) → List (ℕ × ℕ × List Network) → List (ℕ × ℕ × List Network)
notify_all l [] told = told
notify_all l ((cb, user_data) ∷ cbs) told = notify_all l cbs ((cb, user_data, l) ∷ told)

-- The clients are told and forgotten.
unfoldable pub finish : List Network → Search → Search
unfolding notify_all
finish l s = record s { told = notify_all l s.net_list_cbs s.told; net_list_cbs = [] }

unfoldable pub same_lengths : Arrays → Bool
same_lengths a = length a.status == length a.umts_avail && length a.status == length a.network_type

-- `net_list_cb`
unfoldable pub net_list_cb : Reply → Search → Search
unfolding notify_all finish networks same_lengths
net_list_cb error s = record s {
  get_available_network_call = false;
  told = notify_all [] s.net_list_cbs s.told;
}
net_list_cb absent s = finish [] (record s { get_available_network_call = false })
net_list_cb (arrays a) s =
    let s' = record s { get_available_network_call = false } in
    if same_lengths a then finish (networks a 0 a.status a.network_type a.umts_avail) s' else s'

module _ (notify_add : List (ℕ × ℕ) → ℕ → ℕ → List (ℕ × ℕ))
    (notify_remove : List (ℕ × ℕ) → ℕ → List (ℕ × ℕ)) where
  -- `connui_cell_net_list`, and whether it returns TRUE; `begins`: the call of the phone could be begun.
  unfoldable pub net_list : Bool → ℕ → ℕ → Search → Bool × Search
  net_list begins cb user_data s =
      let s' =
        (if s.get_available_network_call then s else record s {
          get_available_network_call = begins;
          begun = if begins then s.begun + 1 else s.begun;
        }) in
      (
        s'.get_available_network_call,
        record s' { net_list_cbs = notify_add s'.net_list_cbs cb user_data },
      )

  abbrev is_empty : List (ℕ × ℕ) → Bool
  is_empty [] = true
  is_empty (c ∷ cs) = false

  -- `connui_cell_net_cancel_list`
  unfoldable pub cancel_list : ℕ → Search → Search
  cancel_list cb s =
      let cbs = notify_remove s.net_list_cbs cb in
      let s' = record s { net_list_cbs = cbs } in
      if is_empty cbs && s.get_available_network_call
      then record s' { get_available_network_call = false; stopped = s.stopped + 1 }
      else s'
