-- ===== src/Config/Client.antt =====
-- The methods of `Configurator` of device/config/configurator.go, as their callers see them: a
-- sequence of calls, and the function that the configurator then stands for.
use iotit.Base.{
  String, Option, none, some, List, [], ◌∷◌, ◌≡◌, refl, ◌∙◌, ap, str_eq, if◌then◌else◌,
}
use iotit.Config.Storage.{Value, lookup, lookup-store, lookup-remove}
use iotit.Config.Configurator.{
  CallbackFn, Configurator, add_config_fn, set_config_fn, get_config_fn, remove_config_fn,
  store_value,
}

-- A call that changes the configurator.
pub data Call : Type 0 where
  add : String → CallbackFn → Call
  set : String → CallbackFn → Call
  removing : String → Call
  storing : String → Value → Call

unfoldable pub run : List Call → Configurator → Configurator
run [] c = c
run (add k f ∷ calls) c = run calls (add_config_fn k f c)
run (set k f ∷ calls) c = run calls (set_config_fn k f c)
run (removing k ∷ calls) c = run calls (remove_config_fn k c)
run (storing k v ∷ calls) c = run calls (store_value k v c)

-- A map as a function, and its change at one key.
abbrev Map : Type 0 → Type 0
Map V = String → Option V

abbrev pub update : {V : Type 0} → String → Option V → Map V → Map V
update k v f j = if str_eq k j then v else f j

-- What the calls mean for the callbacks and for the values.
unfoldable pub replay : List Call → Map CallbackFn → Map CallbackFn
replay [] f = f
replay (add k v ∷ calls) f = replay calls (update k (some v) f)
replay (set k v ∷ calls) f = replay calls (update k (some v) f)
replay (removing k ∷ calls) f = replay calls (update k none f)
replay (storing k v ∷ calls) f = replay calls f

unfoldable pub replay_values : List Call → Map Value → Map Value
replay_values [] f = f
replay_values (add k v ∷ calls) f = replay_values calls f
replay_values (set k v ∷ calls) f = replay_values calls f
replay_values (removing k ∷ calls) f = replay_values calls f
replay_values (storing k v ∷ calls) f = replay_values calls (update k (some v) f)

abbrev pub callbacks : Configurator → Map CallbackFn
callbacks c k = get_config_fn k c

abbrev pub values : Configurator → Map Value
values c k = lookup k c.storage

-- After any sequence of calls GetConfigFn gives, for every key, the callback that was last added or
-- set and not removed since, and the storage holds the value that was last stored; the callbacks
-- and the values do not touch each other.
pub run-replay :
    (calls : List Call) (c : Configurator)
    → (callbacks (run calls c) ≡ replay calls (callbacks c))
      × (values (run calls c) ≡ replay_values calls (values c))
unfolding run replay replay_values add_config_fn set_config_fn get_config_fn remove_config_fn
    store_value
run-replay [] c = (refl, refl)
run-replay (add k f ∷ calls) c =
    let r = run-replay calls (add_config_fn k f c) in
    (r.0 ∙ ap (replay calls) (λ i j. lookup-store k j f c.order i), r.1)
run-replay (set k f ∷ calls) c =
    let r = run-replay calls (set_config_fn k f c) in
    (r.0 ∙ ap (replay calls) (λ i j. lookup-store k j f c.order i), r.1)
run-replay (removing k ∷ calls) c =
    let r = run-replay calls (remove_config_fn k c) in
    (r.0 ∙ ap (replay calls) (λ i j. lookup-remove k j c.order i), r.1)
run-replay (storing k v ∷ calls) c =
    let r = run-replay calls (store_value k v c) in
    (r.0, r.1 ∙ ap (replay_values calls) (λ i j. lookup-store k j v c.storage i))
