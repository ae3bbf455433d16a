-- ===== src/Safe/Laws.antt =====
-- `GetKey` of internal/safe/keymap.go after `SetKey` and after `DeleteKey`.
use mathlib.Core.Logic.{ite}
use mathlib.Core.Path.{◌∙◌}
use cable.Prelude.{◌<◌, ◌^◌, ◌≡◌, Option, none, some, length, refl, ap}
use cable.GoMap.{Bytes, Bytes-discrete, lookup, lookup-insert, lookup-delete}
use cable.Safe.KeyMap
use cable.Safe.KeyMap.{KeyMap, Fields}
use cable.Safe.Lookups.{fields, get_key-lookup, fields-set_key, fields-delete_key}

module _ {T : Type 0} where
  at_fields :
      (key k field f : Bytes) (o : Option T) (m : KeyMap T) (v : Fields T) (d : Dec (key ≡ k))
      → lookup Bytes-discrete f v
        ≡ ite (Bytes-discrete field f) o (lookup Bytes-discrete f (fields key m))
      → lookup Bytes-discrete f (ite d v (fields k m))
        ≡ ite d
            (ite (Bytes-discrete field f) o (lookup Bytes-discrete f (fields k m)))
            (lookup Bytes-discrete f (fields k m))
  at_fields key k field f o m v (yes p) e =
      e
      ∙ ap (λ (i : Bytes). ite (Bytes-discrete field f) o (lookup Bytes-discrete f (fields i m))) p
  at_fields key k field f o m v (no p) e = refl

  -- After `SetKey` the field under the key has the value that was set; every other field of every
  -- key is as before.
  pub get_key-set_key :
      (key field : Bytes) (value : T) (m : KeyMap T) (k f : Bytes)
      → KeyMap.get_key k f (KeyMap.set_key key field value m)
        ≡ ite
            (Bytes-discrete key k)
            (ite (Bytes-discrete field f) (some value) (KeyMap.get_key k f m))
            (KeyMap.get_key k f m)
  get_key-set_key key field value m k f =
      rw
        (
          get_key-lookup k f (KeyMap.set_key key field value m),
          get_key-lookup k f m,
          fields-set_key key field value m k,
        )
        (at_fields key k field f (some value) m _ (Bytes-discrete key k)
          (lookup-insert Bytes-discrete field f value (fields key m)))

  -- After `DeleteKey` the field under the key is gone; every other field of every key is as before,
  -- also where the map of the key went with its last field. The map of the key has fewer fields than
  -- an int32 wraps around at.
  pub get_key-delete_key :
      (key field : Bytes) (m : KeyMap T)
      → length (fields key m) < 2 ^ 32
      → (k f : Bytes)
      → KeyMap.get_key k f (KeyMap.delete_key key field m)
        ≡ ite
            (Bytes-discrete key k)
            (ite (Bytes-discrete field f) none (KeyMap.get_key k f m))
            (KeyMap.get_key k f m)
  get_key-delete_key key field m small k f =
      rw
        (
          get_key-lookup k f (KeyMap.delete_key key field m),
          get_key-lookup k f m,
          fields-delete_key key field m small k,
        )
        (at_fields key k field f none m _ (Bytes-discrete key k)
          (lookup-delete Bytes-discrete field f (fields key m)))
