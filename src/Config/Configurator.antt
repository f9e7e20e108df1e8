-- ===== src/Config/Configurator.antt =====
-- `Configurator` of device/config/configurator.go. The storage is passed on explicitly: a callback
-- changes the map that all callbacks share.
use Prim.Native.Nat.{Ordering}
use Prim.Native.String.{compare}
use iotit.Base.{ℕ, String, Bool, true, false, Option, none, some, List, [], ◌∷◌, map, if◌then◌else◌}
use iotit.Effects.{M, pure, fail, ◌>>=◌, or_return, Env}
use iotit.Config.Storage.{
  Storage, Value, ssh_util, lookup, store, remove, locale_key, keymap_key, wifi_key, interface_key,
  dns_key,
}
use iotit.Config.Dialogs.{
  Callback, Locales, set_locale, set_keyboard, set_wifi, set_interface, set_secondary_dns,
  set_hostname,
}
use iotit.Config.Save.{
  save_locale, save_keyboard, save_wifi, save_interface, save_secondary_dns, save_hostname,
}

-- `nil` functions are `none`.
pub record CallbackFn : Type 0 where
  pub config : Option Callback
  pub apply : Option Callback

abbrev pub Order : Type 0
Order = List (String × CallbackFn)

pub record Configurator : Type 0 where
  pub storage : Storage
  pub order : Order

unfoldable pub new : Configurator
new = record { storage = ("ssh", ssh_util) ∷ []; order = [] }

-- AddConfigFn
unfoldable pub add_config_fn : String → CallbackFn → Configurator → Configurator
add_config_fn name ccf c = record c { order = store name ccf c.order }

-- SetConfigFn
unfoldable pub set_config_fn : String → CallbackFn → Configurator → Configurator
set_config_fn name ccf c = record c { order = store name ccf c.order }

unfoldable pub get_config_fn : String → Configurator → Option CallbackFn
get_config_fn name c = lookup name c.order

unfoldable pub remove_config_fn : String → Configurator → Configurator
remove_config_fn name c = record c { order = remove name c.order }

unfoldable pub store_value : String → Value → Configurator → Configurator
store_value name value c = record c { storage = store name value c.storage }

abbrev pub callback_fn : Callback → Callback → CallbackFn
callback_fn config apply = record { config = some config; apply = some apply }

unfoldable pub new_default : Env → Locales → ℕ → Configurator
unfolding new add_config_fn store
new_default env locales fuel =
    add_config_fn "Hostname" (callback_fn (set_hostname env) (save_hostname env)) (
      add_config_fn dns_key (callback_fn (set_secondary_dns env) (save_secondary_dns env)) (
        add_config_fn interface_key (callback_fn (set_interface env fuel) (save_interface env)) (
          add_config_fn wifi_key (callback_fn (set_wifi env) (save_wifi env)) (
            add_config_fn keymap_key (callback_fn (set_keyboard env locales) (save_keyboard env)) (
              add_config_fn locale_key (callback_fn (set_locale env locales) (save_locale env))
                new)))))

-- sort.Strings
abbrev pub before : String → String → Bool
before a b = elim (compare a b) [ Ordering.gt ↦ false | _ ↦ true ]

unfoldable pub insert_sorted : String → List String → List String
insert_sorted k [] = k ∷ []
insert_sorted k (j ∷ ks) = if before k j then k ∷ j ∷ ks else j ∷ insert_sorted k ks

unfoldable pub sort : List String → List String
unfolding insert_sorted
sort [] = []
sort (k ∷ ks) = insert_sorted k (sort ks)

abbrev pub key : String × CallbackFn → String
key (k, f) = k

-- a callback that may be nil
abbrev pub call : Option Callback → Callback
call none s = pure (s, none)
call (some f) s = f s

-- The loop of Setup. A key that is not in the map is a nil pointer.
unfoldable pub setup_keys : Order → List String → Callback
setup_keys order [] s = pure (s, none)
setup_keys order (k ∷ ks) s = elim (lookup k order) [
  | none ↦ fail
  | some f ↦ call f.config s >>= λ r. or_return r (λ s'. setup_keys order ks s')
]

unfoldable pub setup : Configurator → M (Storage × Option String)
unfolding setup_keys sort
setup c = setup_keys c.order (sort (map key c.order)) c.storage

-- The loop of Write, which ranges over a Go map: `entries` are the entries of the map in the order
-- that the run picks.
unfoldable pub write_entries : Order → Callback
write_entries [] s = pure (s, none)
write_entries ((k, f) ∷ entries) s =
    call f.apply s >>= λ r. or_return r (λ s'. write_entries entries s')
