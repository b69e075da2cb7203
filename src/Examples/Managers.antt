-- ===== src/Examples/Managers.antt =====
-- Tests of manager.go and global.go.
use browserpm.Common.{true, ◌+◌, ◌≡◌, ◌↔◌, refl, none, some, [], ◌∷◌}
use browserpm.Errors.{ok}
use browserpm.Driver.{opened, released, contexts_opened, contexts_closed}
use browserpm.Manager.Operations.{manager_do}
use browserpm.Manager.Laws.{manager_do-balanced}
use browserpm.Manager.Start.{new_manager, one_if_ok, new_manager-starts}
use browserpm.Errors.{panics}
use browserpm.Global.{global, g_create_session, shutdown}
use browserpm.Global.Once.{global-shutdown}
use browserpm.Driver.{starts, stops}
use browserpm.Manager.Registry.{creates, gets, closes, shuts, respond_all, serve_all, view}
use browserpm.Manager.Refinement.{serve_all-respond_all}
use browserpm.Common.{ℕ, map, List}
use browserpm.Common.Int.{pos}
use browserpm.Process.Reply.{
  Items, nil, cons, Fields, get_field, string, number, array, object, field, end,
}
use browserpm.Process.{Inspector, ProcessInfo, get_process_infos}
use browserpm.Process.Infos.{label, labels, get_process_infos_iff}
use browserpm.Examples.{good_host, running_global, good_driver, clock-IsClock, nobody, two_sessions}

manager_do-balanced_example :
    let t' = (manager_do good_driver two_sessions []).1 in
    (contexts_opened 1 t' + 0 ≡ 0 + contexts_closed 1 t') × (opened 1 t' + 0 ≡ 0 + released 1 t')
manager_do-balanced_example = manager_do-balanced good_driver 1 two_sessions []

new_manager-starts_example :
    let (r, t') = new_manager good_host [] [] in starts t' + 0 ≡ 0 + stops t' + one_if_ok r
new_manager-starts_example = new_manager-starts good_host [] []

global-shutdown_example :
    let g' = (shutdown good_driver nobody running_global []).1 in
    (global good_host g' [] ≡ ((none, none), g', []))
    × (g_create_session good_host good_driver "post" [] g' [] ≡ (panics, g', []))
global-shutdown_example =
    global-shutdown good_host good_driver nobody clock-IsClock two_sessions running_global [] []
      "post" [] refl refl refl

serve_all-respond_all_example :
    let calls = creates "post" [] ∷ closes "shop" ∷ gets "shop" ∷ shuts ∷ gets "post" ∷ [] in
    serve_all good_driver nobody calls two_sessions [] ≡ respond_all calls (view two_sessions)
serve_all-respond_all_example =
    serve_all-respond_all good_driver nobody clock-IsClock
      (creates "post" [] ∷ closes "shop" ∷ gets "shop" ∷ shuts ∷ gets "post" ∷ []) two_sessions []
      refl

-- One process, and an entry that is none. Numbers stand for float64.
abbrev two_entries : Items ℕ
two_entries =
    cons (object (field "type" (string "renderer") (field "id" (number 41) end)))
      (cons (number 3) nil)

abbrev small_inspector : Inspector ℕ
small_inspector = record {
  send = λ t. ok (object (field "processInfo" (array two_entries) end));
  zero_real = 0;
  to_int32 = λ n. pos n;
  processes = record {
    new_process = λ pid t. none;
    memory_info = λ pid t. ok (8192, 65536);
    memory_maps = λ pid t. ok (some (4 ∷ []));
    is_linux = true;
  };
}

get_process_infos_iff_example :
    ((infos : List (ProcessInfo ℕ)) × ((get_process_infos small_inspector two_sessions []).0
        ≡ ok infos)
      × (map (label small_inspector) infos ≡ ("renderer", pos 41, 0) ∷ []))
    ↔ ((true ≡ true)
        × ((fs : Fields ℕ) × (vs : Items ℕ) × (small_inspector.send [] ≡ ok (object fs))
            × (get_field "processInfo" fs ≡ array vs)
            × (labels small_inspector vs ≡ ("renderer", pos 41, 0) ∷ [])))
get_process_infos_iff_example =
    get_process_infos_iff small_inspector two_sessions [] (("renderer", pos 41, 0) ∷ [])
