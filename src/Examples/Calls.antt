-- ===== src/Examples/Calls.antt =====
-- The table of calls at work: a call is closed, and another takes its place before it is removed.
use tjsip.Base.{◌≡◌, refl, true, none, [], ◌∷◌, codes, arith, if◌then◌else◌}
use tjsip.Base.Classes.{◌==◌, bytes_eq}
use tjsip.Calls.{CallStates, new_call_info, info_at, get, wake}
use tjsip.Calls.Laws.{get-wake, closed_call_removed, wakes}

abbrev replaced : CallStates
replaced = record {
  infos =
      (1, record new_call_info { call_id = codes "c" })
      ∷ (0, record new_call_info { call_id = codes "c"; closed = true })
      ∷ [];
  calls = (codes "c", 1) ∷ [];
  next = 2;
  removals = 0 ∷ [];
  written = [];
}

get-wake_example :
    get (wake replaced) (codes "c")
    ≡ (if (info_at replaced 0).call_id == codes "c" then none else get replaced (codes "c"))
get-wake_example = get-wake replaced 0 [] (codes "c") refl

closed_call_removed_example : get (wakes 3 replaced) (info_at replaced 0).call_id ≡ none
closed_call_removed_example = closed_call_removed 3 0 replaced 0 refl (omega arith)
