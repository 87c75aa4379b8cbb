-- ===== src/Registry/Servers.antt =====
-- What a lookup of a server answers after each operation of the registry.
use rustmote.Prelude.{◌≡◌, arith, if◌then◌else◌}
use rustmote.Text.{Text, text_eq}
use rustmote.Text.Laws.{text_eq_iff}
use rustmote.Error.{Result, ok, err, unknown_server, ◌>>◌}
use rustmote.Keyed.{HasDistinctKeys}
use rustmote.Keyed.Laws.{find-none_of_any, any_iff_find, updated-update_first}
use rustmote.Keyed.Lookup.{
  find-push_key, removed-remove_first, find-remove_first, find-update_first_key,
}
use rustmote.Server.{RemoteServer}
use rustmote.Config.{Config}
use rustmote.Registry.{is_named, get_server, add_server, remove_server, update_server}

-- The server that is there already, or else the new one.
abbrev pub or_added : RemoteServer → Result RemoteServer → Result RemoteServer
or_added s (ok t) = ok t
or_added s (err e) = ok s

abbrev pub map_ok : (RemoteServer → RemoteServer) → Result RemoteServer → Result RemoteServer
map_ok f (ok t) = ok (f t)
map_ok f (err e) = err e

module _ (cfg : Config) where
  -- After an attempt to add `s`, its name leads to the server that had the name before, or to `s`
  -- where there was none; every other name leads where it led before.
  pub get_server-add_server :
      (s : RemoteServer) (j : Text)
      → get_server (add_server s cfg).1 j
        ≡ (if text_eq s.name j then or_added s (get_server cfg j) else get_server cfg j)
  unfolding get_server add_server
  get_server-add_server s j = ground (
    arith,
    find-push_key (λ t. t.name) j s cfg.servers,
    find-none_of_any (is_named s.name) cfg.servers,
    text_eq_iff s.name j,
    any_iff_find (is_named j) cfg.servers,
    any_iff_find (is_named s.name) cfg.servers,
  )

  -- Removing a name answers what a lookup of it answered, and with distinct names it leaves no
  -- server of this name and every other one.
  pub get_server-remove_server :
      (name j : Text)
      → HasDistinctKeys (λ s. s.name) cfg.servers
      → ((remove_server name cfg).0 ≡ get_server cfg name)
        × (get_server (remove_server name cfg).1 j
            ≡ (if text_eq name j then err (unknown_server j) else get_server cfg j))
  unfolding get_server remove_server
  get_server-remove_server name j d = ground (
    arith,
    removed-remove_first (is_named name) cfg.servers,
    find-remove_first (λ t. t.name) name j cfg.servers d,
  )

  -- A change of the server `name`, where it keeps names, is seen by lookups of `name` and by no other,
  -- and it fails exactly as the lookup does.
  pub get_server-update_server :
      (name j : Text) (f : RemoteServer → RemoteServer)
      → ((s : RemoteServer) → (f s).name ≡ s.name)
      → ((update_server name f cfg).0 ≡ (get_server cfg name >> ok tt))
        × (get_server (update_server name f cfg).1 j
            ≡ (if text_eq name j then map_ok f (get_server cfg j) else get_server cfg j))
  unfolding get_server update_server
  get_server-update_server name j f k = ground (
    arith,
    updated-update_first (is_named name) f cfg.servers,
    find-update_first_key (λ t. t.name) name j f cfg.servers k,
  )
