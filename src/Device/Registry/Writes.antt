-- ===== src/Device/Registry/Writes.antt =====
-- The operations that change a device leave the cache sound.
use goster_io_t.Common.{if-true, if-false, some-injective}
use goster_io_t.Common.{◌≡◌, refl, ap, ◌∙◌, sym, Bool, true, false, Option, none, some, is_empty}
use goster_io_t.Common.{if◌then◌else◌, Bool-cases, inl, inr}
use goster_io_t.Common.Result.{Result, ok, err, ok-injective}
use goster_io_t.Common.Text.{Text, str_eq, str_eq_iff}
use goster_io_t.Common.Assoc.{lookup, delete, lookup-delete}
use goster_io_t.Device.Errors.{DeviceError, database}
use goster_io_t.Device.Table.{
  DeviceTable, DeviceRow, DeviceMetadata, load_config, to_metadata, token_text, metadata_found,
}
use goster_io_t.Device.Table.Laws.{KeysDiffer, IsLocal}
use goster_io_t.Device.Registry.{Registry, forget_token}
use goster_io_t.Device.Registry.Laws.{MayLogIn, CacheIsSound}

-- A registry whose cache is sound over a table with unique keys.
pub record IsSound (s : Registry) : Type 0 where
  pub keys : KeysDiffer s.table.devices
  pub cache : CacheIsSound s

-- The cache is sound and answers for no token of the device.
pub record Forgets (s : Registry) (uuid : Text) : Type 0 where
  pub keys : KeysDiffer s.table.devices
  pub cached :
      (token u : Text)
      → lookup token s.token_cache ≡ some u
      → MayLogIn s.table token u × (str_eq uuid u ≡ false)

-- A statement that touches the device alone keeps such a cache sound.
pub after_statement :
    (s : Registry) (t : DeviceTable) (uuid : Text)
    → Forgets s uuid
    → IsLocal s.table t uuid
    → IsSound (record s { table = t })
after_statement s t uuid f l = record {
  keys = l.keys f.keys;
  cache = record {
    sound = λ token u h.
        let (m, other) = f.cached token u h in
        record {
          given = m.given;
          row = m.row;
          found = l.elsewhere u other ∙ m.found;
          holds = m.holds;
          status = m.status;
        };
  };
}

loaded_row :
    (t : DeviceTable) (uuid : Text) (meta : DeviceMetadata) (o : Option DeviceRow)
    → lookup uuid t.devices ≡ o
    → metadata_found o ≡ ok meta
    → (row : DeviceRow) × (lookup uuid t.devices ≡ some row) × (to_metadata row ≡ meta)
loaded_row t uuid meta none e h = cc
loaded_row t uuid meta (some row) e h = (row, e, ok-injective h)

pub load_config_row :
    (t : DeviceTable) (uuid : Text) (meta : DeviceMetadata)
    → load_config t uuid ≡ ok meta
    → (row : DeviceRow) × (lookup uuid t.devices ≡ some row) × (to_metadata row ≡ meta)
unfolding load_config
load_config_row t uuid meta h = elim (Bool-cases t.up) [
  | inl up ↦ loaded_row t uuid meta (lookup uuid t.devices) refl (sym (if-true _ t.up up) ∙ h)
  | inr down ↦
      let clash : ◌≡◌ {A = Result DeviceError DeviceMetadata} (err database) (ok meta) =
        sym (if-false _ t.up down) ∙ h in
      absurd (cc)
]

-- The token of the metadata is the one that the device may log in with.
own_token :
    (t : DeviceTable) (uuid u token : Text) (meta : DeviceMetadata)
    → load_config t uuid ≡ ok meta
    → MayLogIn t token u
    → str_eq uuid u ≡ true
    → meta.token ≡ token
unfolding to_metadata
own_token t uuid u token meta h m same =
    let (row, found, loaded) = load_config_row t uuid meta h in
    let key : uuid ≡ u = (str_eq_iff uuid u).0 same in
    let at_key : lookup uuid t.devices ≡ lookup u t.devices = ap (λ k. lookup k t.devices) key in
    let one : row ≡ m.row = some-injective (sym found ∙ at_key ∙ m.found) in
    let tokens : row.token ≡ some token = ap (λ (r : DeviceRow). r.token) one ∙ m.holds in
    sym (ap (λ (d : DeviceMetadata). d.token) loaded) ∙ ap token_text tokens

module _ (s : Registry) (uuid : Text) (meta : DeviceMetadata) (i : IsSound s)
    (h : load_config s.table uuid ≡ ok meta) where
  Forgets-if :
      (b : Bool)
      → is_empty meta.token ≡ b
      → Forgets (if b then s else record s { token_cache = delete meta.token s.token_cache }) uuid
  Forgets-if true none_held = record {
    keys = i.keys;
    cached = λ token u e.
        let m = i.cache.sound token u e in
        (
          m,
          elim (Bool-cases (str_eq uuid u)) [
            | inl same ↦
                let own = own_token s.table uuid u token meta h m same in
                let clash : true ≡ false = sym none_held ∙ ap is_empty own ∙ m.given in absurd (cc)
            | inr other ↦ other
          ],
        );
  }
  Forgets-if false held = record {
    keys = i.keys;
    cached = λ token u e.
        let kept = lookup-delete meta.token token s.token_cache in
        elim (Bool-cases (str_eq meta.token token)) [
          | inl gone ↦
              let clash : ◌≡◌ {A = Option Text} none (some u) = sym (kept ∙ rw gone refl) ∙ e in
              absurd (cc)
          | inr stays ↦
              let m = i.cache.sound token u (sym (kept ∙ rw stays refl) ∙ e) in
              (
                m,
                elim (Bool-cases (str_eq uuid u)) [
                  | inl same ↦
                      let own = own_token s.table uuid u token meta h m same in
                      let clash : true ≡ false =
                        sym ((str_eq_iff meta.token token).1 own) ∙ stays in
                      absurd (cc)
                  | inr other ↦ other
                ],
              )
        ];
  }

  -- Once the token of its loaded metadata is forgotten, no token of the device is cached.
  pub forget_token-Forgets : Forgets (forget_token s meta.token) uuid
  forget_token-Forgets = Forgets-if (is_empty meta.token) refl
