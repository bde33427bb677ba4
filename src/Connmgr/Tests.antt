-- ===== src/Connmgr/Tests.antt =====
-- The theorems on the connection manager at concrete inputs.
use connui_cellular.Prelude.{suc, [], ◌∷◌, arith}
use connui_cellular.Glib.{texts}
use connui_cellular.Notifier.{changed, registered, idle, read_all}
use connui_cellular.Notifier.Laws.{IsServed}
use connui_cellular.Connmgr.{create, connmgr}
use connui_cellular.Connmgr.Served.{connmgr-IsServed}

connmgr-IsServed_example :
    IsServed
      (connmgr texts)
      suc
      (read_all (connmgr texts) (("Bearer", "hspa") ∷ ("Powered", "yes") ∷ []) create)
      (idle ∷ changed ("Attached", "yes") ∷ registered ∷ idle ∷ changed ("Bearer", "none") ∷ [])
connmgr-IsServed_example =
    connmgr-IsServed texts suc (λ n. omega arith) (("Bearer", "hspa") ∷ ("Powered", "yes") ∷ [])
      (idle ∷ changed ("Attached", "yes") ∷ registered ∷ idle ∷ changed ("Bearer", "none") ∷ [])
