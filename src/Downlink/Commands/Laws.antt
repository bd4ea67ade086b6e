-- ===== src/Downlink/Commands/Laws.antt =====
-- The life of a command's record.
use goster_io_t.Common.{ℕ, zero, suc, ◌<◌, ◌≡◌, refl, arith, Option, none, some, List, [], ◌∷◌}
use goster_io_t.Common.{true, ◌==◌, ◌||◌, if◌then◌else◌, lt→ltb, eq→==, ap}
use native.Mathlib.Decide.{ℕ_discrete}
use goster_io_t.Common.Result.{ok, err}
use goster_io_t.Common.Int.{pos}
use goster_io_t.Common.Text.{Text, str_eq}
use mathlib.Core.Option
use goster_io_t.Downlink.Errors.{command_not_found}
use goster_io_t.Downlink.Commands.{
  CommandRow, CommandTable, is_valid_status, non_empty_text, set_status, update_rows, run_update,
  coalesce, update_device_command_status, status_acked, status_failed,
}

-- SELECT ... WHERE id = ?
unfoldable pub find_row : ℕ → List CommandRow → Option CommandRow
find_row id [] = none
find_row id (r ∷ rows) = if r.id == id then some r else find_row id rows

module _ (id : ℕ) (f : CommandRow → CommandRow) (keeps : (r : CommandRow) → (f r).id ≡ r.id) where
  find_row-update_rows :
      (j : ℕ) (rows : List CommandRow)
      → find_row j (update_rows id f rows).0
        ≡ (if id == j then Option.map f (find_row j rows) else find_row j rows)
  unfolding find_row update_rows
  find_row-update_rows j [] = ground arith
  find_row-update_rows j (r ∷ rows) = ground (arith, find_row-update_rows j rows, keeps r)

  count-update_rows :
      (rows : List CommandRow)
      → ((find_row id rows ≡ none) → (update_rows id f rows).1 ≡ 0)
        × ((r : CommandRow) → find_row id rows ≡ some r → 0 < (update_rows id f rows).1)
  unfolding find_row update_rows
  count-update_rows [] = (λ e. refl, λ r e. cc)
  count-update_rows (x ∷ rows) =
      let (absent, present) = count-update_rows rows in
      (λ e. ground (arith, absent), λ r e. ground (arith, present r))

run_update-zero :
    (t : CommandTable) (u : List CommandRow × ℕ)
    → u.1 ≡ 0
    → run_update t u ≡ (record t { rows = u.0 }, err command_not_found)
unfolding run_update
run_update-zero t (rows, zero) h = refl
run_update-zero t (rows, suc n) h = absurd (omega arith)

run_update-pos :
    (t : CommandTable) (u : List CommandRow × ℕ)
    → 0 < u.1
    → run_update t u ≡ (record t { rows = u.0 }, ok tt)
unfolding run_update
run_update-pos t (rows, zero) h = absurd (omega arith)
run_update-pos t (rows, suc n) h = refl

-- The time of execution that goes with a status.
abbrev pub executed : Text → ℕ → Option ℕ
executed status now =
    if str_eq status status_acked || str_eq status status_failed then some now else none

-- The row that a status update leaves.
abbrev pub moved : Text → Text → ℕ → CommandRow → CommandRow
moved status error now r = record r {
  status = status;
  error_text = non_empty_text error;
  executed_at = coalesce (executed status now) r.executed_at;
}

module _ (now : ℕ) (t : CommandTable) (n : ℕ) (status error : Text)
    (valid : is_valid_status status ≡ true) (up : t.up ≡ true) where
  abbrev changed : CommandRow → CommandRow
  changed = set_status status (non_empty_text error) (executed status now)

  changed-moved : (r : CommandRow) → changed r ≡ moved status error now r
  unfolding set_status
  changed-moved r = refl

  same_id : (r : CommandRow) → (changed r).id ≡ r.id
  unfolding set_status
  same_id r = refl

  reached :
      update_device_command_status now t (pos (suc n)) status error
      ≡ run_update t (update_rows (suc n) changed t.rows)
  unfolding update_device_command_status
  reached = simp (lt→ltb 0 (suc n) (omega arith), valid, up)

  at_key :
      (r : CommandRow)
      → find_row (suc n) t.rows ≡ some r
      → (j : ℕ)
      → (if suc n == j then Option.map changed (find_row j t.rows) else find_row j t.rows)
        ≡ (if suc n == j then some (moved status error now r) else find_row j t.rows)
  at_key r e j = elim (ℕ_discrete (suc n) j) [
    | yes same ↦ rw (eq→== (suc n) j same, ← same, e) (ap some (changed-moved r))
    | no other ↦ ground arith
  ]

  -- When the database answers, an update of a known command to a valid status succeeds and changes
  -- that command's row alone.
  pub update_known :
      (r : CommandRow)
      → find_row (suc n) t.rows ≡ some r
      → (let u = update_device_command_status now t (pos (suc n)) status error in
          (u.1 ≡ ok tt)
          × ((j : ℕ)
              → find_row j u.0.rows
                ≡ (if suc n == j then some (moved status error now r) else find_row j t.rows)))
  update_known r e =
      let count = (count-update_rows (suc n) changed same_id t.rows).1 r e in
      rw (reached, run_update-pos t (update_rows (suc n) changed t.rows) count)
        (refl, λ j. rw (find_row-update_rows (suc n) changed same_id j t.rows) (at_key r e j))

  -- When the database answers, an update of an unknown command to a valid status returns
  -- ErrDeviceCommandNotFound and changes no row.
  pub update_unknown :
      find_row (suc n) t.rows ≡ none
      → (let u = update_device_command_status now t (pos (suc n)) status error in
          (u.1 ≡ err command_not_found) × ((j : ℕ) → find_row j u.0.rows ≡ find_row j t.rows))
  update_unknown e =
      let count = (count-update_rows (suc n) changed same_id t.rows).0 e in
      rw (reached, run_update-zero t (update_rows (suc n) changed t.rows) count)
        (refl, λ j. ground (arith, find_row-update_rows (suc n) changed same_id j t.rows, e))
