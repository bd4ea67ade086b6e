-- ===== src/Device/Registry/Laws.antt =====
-- The tokens that the cache answers for are tokens of devices that are authenticated.
use goster_io_t.Common.{some-injective}
use goster_io_t.Common.{ℕ, ◌≡◌, refl, ap, ◌∙◌, sym, Bool, true, false, ◌==◌, ==_iff}
use goster_io_t.Common.{Option, none, some, [], ◌∷◌, is_empty, if◌then◌else◌, Bool-cases, inl, inr}
use goster_io_t.Common.Result.{Result, ok, err, ok-injective}
use goster_io_t.Common.Text.{Text, str_eq, str_eq_iff}
use goster_io_t.Common.Assoc.{Assoc, lookup, insert, lookup-insert}
use goster_io_t.Device.Errors.{
  DeviceError, database, device_pending, device_refused, device_unknown,
}
use goster_io_t.Device.Table.{
  DeviceTable, DeviceRow, find_token, same_token, get_device_by_token, status_found, authenticated,
  authenticate_pending, authenticate_refuse,
}
use goster_io_t.Device.Table.Laws.{KeysDiffer}
use goster_io_t.Device.Registry.{Registry, authenticate, after_lookup, by_status}

-- The device may log in with the token.
pub record MayLogIn (t : DeviceTable) (token uuid : Text) : Type 0 where
  pub given : is_empty token ≡ false
  pub row : DeviceRow
  pub found : lookup uuid t.devices ≡ some row
  pub holds : row.token ≡ some token
  pub status : row.meta.authenticate_status ≡ authenticated

-- Every token of the cache is that of an authenticated device, under whose uuid it is cached.
pub record CacheIsSound (s : Registry) : Type 0 where
  pub sound :
      (token uuid : Text) → lookup token s.token_cache ≡ some uuid → MayLogIn s.table token uuid

find_token-lookup :
    (token : Text) (devices : Assoc DeviceRow) (uuid : Text) (row : DeviceRow)
    → KeysDiffer devices
    → find_token token devices ≡ some (uuid, row)
    → (lookup uuid devices ≡ some row) × (same_token row.token (some token) ≡ true)
unfolding lookup
find_token-lookup token [] uuid row u h = cc
find_token-lookup token ((j, r) ∷ devices) uuid row (fresh, u) h =
    elim (Bool-cases (same_token r.token (some token))) [
      | inl same ↦
          let e : some (j, r) ≡ find_token token ((j, r) ∷ devices) = rw same refl in
          let pair : ◌≡◌ {A = Option (Text × DeviceRow)} (some (j, r)) (some (uuid, row)) = e ∙ h in
          let key : j ≡ uuid = cc in
          let value : r ≡ row = cc in
          (
            rw ((str_eq_iff j uuid).1 key) (ap some value),
            ap (λ (x : DeviceRow). same_token x.token (some token)) (sym value) ∙ same,
          )
      | inr other ↦
          let e : find_token token devices ≡ find_token token ((j, r) ∷ devices) = rw other refl in
          let (found, holds) = find_token-lookup token devices uuid row u (e ∙ h) in
          (
            elim (Bool-cases (str_eq j uuid)) [
              | inl same ↦
                  let key : j ≡ uuid = (str_eq_iff j uuid).0 same in
                  let gone : lookup j devices ≡ lookup uuid devices =
                    ap (λ x. lookup x devices) key in
                  let clash : ◌≡◌ {A = Option DeviceRow} none (some row) = cc in cc
              | inr differ ↦ rw differ found
            ],
            holds,
          )
    ]

same_token-eq : (a : Option Text) (token : Text) → same_token a (some token) ≡ true → a ≡ some token
same_token-eq none token h = cc
same_token-eq (some t) token h = ap some ((str_eq_iff t token).0 h)

MayLogIn-eq :
    {t : DeviceTable} {token token' uuid uuid' : Text}
    → token ≡ token'
    → uuid ≡ uuid'
    → MayLogIn t token uuid
    → MayLogIn t token' uuid'
MayLogIn-eq p q m = rw (← p, ← q) m

found_row :
    (devices : Assoc DeviceRow) (token : Text) (found : Option (Text × DeviceRow)) (uuid : Text)
    (status : ℕ)
    → KeysDiffer devices
    → find_token token devices ≡ found
    → status_found found ≡ ok (uuid, status)
    → (row : DeviceRow) × (lookup uuid devices ≡ some row)
      × (row.token ≡ some token)
      × (row.meta.authenticate_status ≡ status)
found_row devices token none uuid status keys e h = cc
found_row devices token (some (j, row)) uuid status keys e h =
    let key : j ≡ uuid = cc in
    let stored : row.meta.authenticate_status ≡ status = cc in
    let (found, holds) = find_token-lookup token devices j row keys e in
    (row, ap (λ k. lookup k devices) (sym key) ∙ found, same_token-eq row.token token holds, stored)

-- The row that a token finds, when the database answers.
get_device_by_token_row :
    (t : DeviceTable) (token uuid : Text) (status : ℕ)
    → KeysDiffer t.devices
    → get_device_by_token t token ≡ ok (uuid, status)
    → (row : DeviceRow) × (lookup uuid t.devices ≡ some row)
      × (row.token ≡ some token)
      × (row.meta.authenticate_status ≡ status)
unfolding get_device_by_token
get_device_by_token_row t token uuid status keys h = elim (Bool-cases t.up) [
  | inl up ↦
      found_row t.devices token (find_token token t.devices) uuid status keys refl
        (sym (rw up refl) ∙ h)
  | inr down ↦ let clash : get_device_by_token t token ≡ err database = rw down refl in cc
]

module _ (s : Registry) (keys : KeysDiffer s.table.devices) (c : CacheIsSound s) (token : Text)
    (given : is_empty token ≡ false) where
  cached :
      (uuid : Text)
      → MayLogIn s.table token uuid
      → CacheIsSound (record s { token_cache = insert token uuid s.token_cache })
  cached uuid m = record {
    sound = λ token' uuid' h. elim (Bool-cases (str_eq token token')) [
      | inl same ↦
          let now_cached : lookup token' (insert token uuid s.token_cache) ≡ some uuid =
            lookup-insert token token' uuid s.token_cache ∙ rw same refl in
          let one : uuid ≡ uuid' = some-injective (sym now_cached ∙ h) in
          MayLogIn-eq ((str_eq_iff token token').0 same) one m
      | inr other ↦
          let before : lookup token' (insert token uuid s.token_cache)
              ≡ lookup token' s.token_cache =
            lookup-insert token token' uuid s.token_cache ∙ rw other refl in
          c.sound token' uuid' (sym before ∙ h)
    ];
  }

  refused :
      (a b : Bool)
      → (let r : Registry × Result DeviceError Text =
            if a
            then (s, err device_pending)
            else if b
            then (s, err device_refused)
            else (s, err device_unknown) in
          ((u : Text) → r.1 ≡ ok u → MayLogIn s.table token u) × CacheIsSound r.0)
  refused true b = (λ u h. cc, c)
  refused false true = (λ u h. cc, c)
  refused false false = (λ u h. cc, c)

  by_status_lem :
      (uuid : Text) (status : ℕ)
      → get_device_by_token s.table token ≡ ok (uuid, status)
      → ((u : Text) → (by_status s token uuid status).1 ≡ ok u → MayLogIn s.table token u)
        × CacheIsSound (by_status s token uuid status).0
  by_status_lem uuid status e = elim (Bool-cases (status == authenticated)) [
    | inl live ↦
        let (row, found, holds, stored) =
          get_device_by_token_row s.table token uuid status keys e in
        let m : MayLogIn s.table token uuid = record {
          given = given;
          row = row;
          found = found;
          holds = holds;
          status = stored ∙ (==_iff status authenticated).0 live;
        } in
        rw live (λ u h. MayLogIn-eq refl (ok-injective h) m, cached uuid m)
    | inr dead ↦ rw dead (refused (status == authenticate_pending) (status == authenticate_refuse))
  ]

  after_lookup_lem :
      (o : Option Text) (r : Result DeviceError (Text × ℕ))
      → lookup token s.token_cache ≡ o
      → get_device_by_token s.table token ≡ r
      → ((u : Text) → (after_lookup s token o r).1 ≡ ok u → MayLogIn s.table token u)
        × CacheIsSound (after_lookup s token o r).0
  after_lookup_lem (some uuid) r e e' =
      (λ u h. let same : uuid ≡ u = ok-injective h in c.sound token u (e ∙ ap some same), c)
  after_lookup_lem none (err x) e e' = (λ u h. cc, c)
  after_lookup_lem none (ok (uuid, status)) e e' = by_status_lem uuid status e'

  -- A token that authenticates is that of the device that is returned, which is authenticated. The
  -- cache is sound before the call, the table's keys differ and the token is not empty.
  pub authenticate-MayLogIn :
      (uuid : Text) → (authenticate s token).1 ≡ ok uuid → MayLogIn s.table token uuid
  unfolding authenticate
  authenticate-MayLogIn = (after_lookup_lem _ _ refl refl).0

  -- An authentication keeps the cache sound, where the table's keys differ and the token is not
  -- empty.
  pub authenticate-CacheIsSound : CacheIsSound (authenticate s token).0
  unfolding authenticate
  authenticate-CacheIsSound = (after_lookup_lem _ _ refl refl).1
