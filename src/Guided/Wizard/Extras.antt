-- ===== src/Guided/Wizard/Extras.antt =====
-- The controls for the extras of the guided wizard, after whatever the user did before.
use mozza.Prelude.{
  nat_eq, ◌≡◌, refl, ◌⊎◌, inl, inr, true, false, ◌&&◌, Option, none, some, List, [], ◌∷◌, String,
  arith, all, ◌==◌, string_eq, find, Bool-cases,
}
use mozza.Guided.Kept.{
  others, is_plain, is_service, plain-change_services, kinds-change_services, plain-change_extras,
  kinds-change_extras,
}
use mozza.Guided.{
  forever, on_schedule, is_on_schedule, DbOption, db_options, pick_engine, set_run_mode,
  with_engine, is_offered, GuidedService, DeployType, webapp, api, worker, scheduled, database,
  fullstack, has_db, has_cache, Detail, change_detail, remove_db, remove_cache, remove_scheduled,
  change_extras, shows_extra, is_offered, set_run_mode, pick_engine, has_kind, remove_extra_by_kind,
}
use mozza.Guided.Wizard.Steps.{presses, last_two, is_step_valid_extras}
use mozza.Guided.Source.{generate_recipe_source}
use mozza.Guided.Wizard.{
  changed_detail, change_first, Wizard, is_database, handle_next, handle_back, handle_type_select,
  is_step_valid, Action, select, detail, change, extra, perform, perform_all, change_first,
}

-- Only the first service needs something, and a database is a deployment of its own.
pub record IsTidy (w : Wizard) : Type 0 where
  pub plain : all is_plain (others w.services) ≡ true
  pub kinds : (is_database w.deploy_type ≡ true) ⊎ (all is_service w.services ≡ true)

plain-change_first :
    (t : DeployType) (d : Detail) (svcs : List GuidedService)
    → all is_plain (others svcs) ≡ true
    → all is_plain (others (change_first t d svcs)) ≡ true
plain-change_first t d [] h = h
plain-change_first t d (s ∷ ss) h = h

with_engine-is_service :
    (id : String) (d : Option DbOption) (s : GuidedService)
    → is_service s ≡ true
    → is_service (with_engine id d s) ≡ true
with_engine-is_service id none s h = h
with_engine-is_service id (some d) s h = h

change_detail-is_service :
    (d : Detail) (s : GuidedService) → is_service s ≡ true → is_service (change_detail d s) ≡ true
unfolding change_detail is_on_schedule
change_detail-is_service (set_run_mode forever) s h = refl
change_detail-is_service (set_run_mode on_schedule) s h = refl
change_detail-is_service (pick_engine id) s h =
    with_engine-is_service id (find (λ d. d.id == id) db_options) s h
change_detail-is_service d s h = h

kinds-change_first :
    (t : DeployType) (d : Detail) (svcs : List GuidedService)
    → all is_service svcs ≡ true
    → all is_service (change_first t d svcs) ≡ true
kinds-change_first t d [] h = h
kinds-change_first t d (s ∷ ss) h = ground (arith, change_detail-is_service d s)

select-IsTidy : (t : DeployType) (w : Wizard) → IsTidy (handle_type_select t w)
unfolding handle_type_select
select-IsTidy webapp w = record { plain = refl; kinds = inr refl }
select-IsTidy api w = record { plain = refl; kinds = inr refl }
select-IsTidy worker w = record { plain = refl; kinds = inr refl }
select-IsTidy scheduled w = record { plain = refl; kinds = inr refl }
select-IsTidy database w = record { plain = refl; kinds = inl refl }
select-IsTidy fullstack w = record { plain = refl; kinds = inr refl }

-- It is about the type and the services alone.
services-IsTidy :
    (v w : Wizard) → v.services ≡ w.services → v.deploy_type ≡ w.deploy_type → IsTidy w → IsTidy v
services-IsTidy v w svcs type h = record {
  plain = rw svcs h.plain;
  kinds = rw (svcs, type) h.kinds;
}

changed_detail-IsTidy :
    (d : Detail) (w : Wizard) (o : Option DeployType)
    → w.deploy_type ≡ o
    → IsTidy w
    → IsTidy (changed_detail d w)
changed_detail-IsTidy d w none nothing h = record {
  plain = ground (arith, h.plain);
  kinds = ground (arith, h.kinds);
}
changed_detail-IsTidy d w (some t) chosen h = record {
  plain = ground (arith, h.plain, plain-change_first t d w.services);
  kinds = ground (arith, h.kinds, kinds-change_first t d w.services);
}

perform-IsTidy : (a : Action) (w : Wizard) → IsTidy w → IsTidy (perform a w)
unfolding perform handle_next handle_back is_step_valid
perform-IsTidy (select t) w h = elim (Bool-cases (w.step == 1 && is_offered t)) [
  | inl shown ↦ rw (shown, perform) (select-IsTidy t w)
  | inr hidden ↦ rw (hidden, perform) h
]
perform-IsTidy (detail d) w h = changed_detail-IsTidy d w w.deploy_type refl h
perform-IsTidy (change c) w h = record {
  plain = ground (arith, h.plain, plain-change_services c w.services);
  kinds = ground (arith, h.kinds, kinds-change_services c w.services);
}
perform-IsTidy (extra e) w h = record {
  plain = ground (arith, h.plain, plain-change_extras e w.services);
  kinds = ground (arith, h.kinds, kinds-change_extras e w.services);
}
perform-IsTidy a w h = services-IsTidy (perform a w) w (ground arith) (ground arith) h

perform_all-IsTidy : (acts : List Action) (w : Wizard) → IsTidy w → IsTidy (perform_all acts w)
perform_all-IsTidy [] w h = h
perform_all-IsTidy (a ∷ acts) w h = perform_all-IsTidy acts (perform a w) (perform-IsTidy a w h)

none_needs_db :
    (svcs : List GuidedService)
    → all is_plain svcs ≡ true
    → all is_service svcs ≡ true
    → has_db svcs ≡ false
none_needs_db [] h k = refl
none_needs_db (s ∷ ss) h k = ground (arith, none_needs_db ss)

none_needs_cache : (svcs : List GuidedService) → all is_plain svcs ≡ true → has_cache svcs ≡ false
none_needs_cache [] h = refl
none_needs_cache (s ∷ ss) h = ground (arith, none_needs_cache ss)

remove_db_lem :
    (svcs : List GuidedService)
    → all is_plain (others svcs) ≡ true
    → all is_service svcs ≡ true
    → has_db (change_extras remove_db svcs) ≡ false
unfolding change_extras
remove_db_lem [] h k = refl
remove_db_lem (s ∷ ss) h k = ground (arith, none_needs_db ss)

remove_cache_lem :
    (svcs : List GuidedService)
    → all is_plain (others svcs) ≡ true
    → has_cache (change_extras remove_cache svcs) ≡ false
unfolding change_extras
remove_cache_lem [] h = refl
remove_cache_lem (s ∷ ss) h = none_needs_cache ss h

remove_shown :
    (v : Wizard) (t : DeployType)
    → IsTidy v
    → v.step ≡ 3
    → v.deploy_type ≡ some t
    → is_database (some t) ≡ false
    → (has_db (perform (extra remove_db) v).services ≡ false)
      × (has_cache (perform (extra remove_cache) v).services ≡ false)
unfolding perform shows_extra
remove_shown v t h at chosen other = (
  ground (arith, h.plain, h.kinds, remove_db_lem v.services),
  ground (arith, h.plain, remove_cache_lem v.services),
)

-- Where only the first service needs a database or a cache, and none is a database unless a
-- database is deployed, then whatever the user does: when that leads to the extras of a type other
-- than the database, removing the database leaves no service that needs one or is one, and
-- removing the cache leaves none that needs a cache.
pub remove_extras_lem :
    (acts : List Action) (w : Wizard) (t : DeployType)
    → IsTidy w
    → (perform_all acts w).step ≡ 3
    → (perform_all acts w).deploy_type ≡ some t
    → is_database (some t) ≡ false
    → (has_db (perform (extra remove_db) (perform_all acts w)).services ≡ false)
      × (has_cache (perform (extra remove_cache) (perform_all acts w)).services ≡ false)
remove_extras_lem acts w t h = remove_shown (perform_all acts w) t (perform_all-IsTidy acts w h)

-- At the extras of a worker, where the only service runs on a schedule, removing "the scheduled
-- job" removes it, and pressing Next twice completes the wizard with a recipe without a service.
pub remove_scheduled_lem :
    (w : Wizard) (s : GuidedService)
    → w.step ≡ 3
    → w.deploy_type ≡ some worker
    → w.services ≡ s ∷ []
    → s.kind ≡ "scheduled"
    → (perform_all (extra remove_scheduled ∷ presses 2) w).completed
      ≡ some (w.app_name, generate_recipe_source w.app_name [])
unfolding perform shows_extra change_extras
remove_scheduled_lem w s at chosen only kind = rw removed (
    last_two (record w { services = [] }) (rw (at, chosen) refl)
      (is_step_valid_extras (record w { services = [] }) at))
  where
    shown : has_kind "scheduled" w.services ≡ true
    shown = rw (only, kind) refl

    gone : remove_extra_by_kind "scheduled" w.services ≡ []
    gone = rw (only, kind) refl

    removed : perform (extra remove_scheduled) w ≡ record w { services = [] }
    removed = ground (arith, shown, gone)
