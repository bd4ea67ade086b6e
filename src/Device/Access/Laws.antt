-- ===== src/Device/Access/Laws.antt =====
-- Which of the points decide the state of the door.
use goster_io_t.Common.{
  ℕ, ◌<◌, ◌≤◌, ◌/◌, ◌%◌, Bool, true, false, ◌&&◌, ◌≡◌, ◌≢◌, refl, ◌==◌, eq→==, arith, ap, sym, ◌∙◌,
}
use goster_io_t.Common.{Bool-cases, inl, inr, ◌⊎◌, neq→==}
use native.Mathlib.Decide.{ℕ_discrete}
use goster_io_t.Common.{Option, none, some, List, [], ◌∷◌, ◌++◌, if◌then◌else◌, All}
use goster_io_t.Common.Int.{ℤ, pos, int_leb}
use goster_io_t.Common.Text.{Text, text}
use goster_io_t.Device.Access.{
  AccessControlState, MetricPoint, replaces, Reading, note, scan, normalize_access_signal,
  at_least_one, door, status_text_of, evaluate_access_control, metric_type_access_signal_a,
  metric_type_access_signal_b,
}

-- The loop as it acts on the points of one type.
abbrev fold : ℕ → List MetricPoint → Reading → Reading
fold kind [] r = r
fold kind (p ∷ points) r = fold kind points (if p.metric_type == kind then note r p else r)

scan-fold :
    (points : List MetricPoint) (a b : Reading)
    → scan points a b
      ≡ (fold metric_type_access_signal_a points a, fold metric_type_access_signal_b points b)
unfolding scan
scan-fold [] a b = refl
scan-fold (p ∷ points) a b =
    ground
      (arith, scan-fold points (note a p) b, scan-fold points a (note b p), scan-fold points a b)

-- `p` is the latest point of its type: none of that type that comes before it is later, and all of
-- that type that come after it are earlier.
pub record IsLatest (kind : ℕ) (points : List MetricPoint) (p : MetricPoint) : Type 0 where
  pub before : List MetricPoint
  pub after : List MetricPoint
  pub split : points ≡ before ++ (p ∷ after)
  pub typed : p.metric_type ≡ kind
  pub earlier : All (λ x. x.metric_type ≡ kind → int_leb x.timestamp p.timestamp ≡ true) before
  pub later : All (λ x. x.metric_type ≡ kind → int_leb p.timestamp x.timestamp ≡ false) after

-- No point of the type.
abbrev pub Lacks : ℕ → List MetricPoint → Type 0
Lacks kind points = All (λ x. x.metric_type ≢ kind) points

fold-append :
    (kind : ℕ) (xs ys : List MetricPoint) (r : Reading)
    → fold kind (xs ++ ys) r ≡ fold kind ys (fold kind xs r)
fold-append kind [] ys r = refl
fold-append kind (x ∷ xs) ys r = fold-append kind xs ys _

fold-Lacks :
    (kind : ℕ) (points : List MetricPoint) (r : Reading)
    → Lacks kind points
    → fold kind points r ≡ r
fold-Lacks kind [] r h = refl
fold-Lacks kind (p ∷ points) r (h, hs) = ground (arith, fold-Lacks kind points r hs)

-- A reading that is no later than `t`.
abbrev Until : Option ℕ → ℤ → ℤ → Type 0
Until none ts t = Unit {0}
Until (some v) ts t = int_leb ts t ≡ true

abbrev NoLater : ℤ → Reading → Type 0
NoLater t r = Until r.signal r.ts t

note-Until :
    (t : ℤ) (s : Option ℕ) (ts : ℤ) (p : MetricPoint)
    → int_leb p.timestamp t ≡ true
    → Until s ts t
    → NoLater t (note (record { signal = s; ts = ts }) p)
unfolding note
note-Until t none ts p e h = e
note-Until t (some v) ts p e h = elim (Bool-cases (int_leb ts p.timestamp)) [
  | inl early ↦ rw early e
  | inr late ↦ rw late h
]

fold-NoLater :
    (kind : ℕ) (t : ℤ) (points : List MetricPoint) (r : Reading)
    → All (λ x. x.metric_type ≡ kind → int_leb x.timestamp t ≡ true) points
    → NoLater t r
    → NoLater t (fold kind points r)
unfolding note
fold-NoLater kind t [] r hs h = h
fold-NoLater kind t (p ∷ points) r (early, hs) h =
    let step : NoLater t (if p.metric_type == kind then note r p else r) =
      elim (ℕ_discrete p.metric_type kind) [
        | yes same ↦
            rw (eq→== p.metric_type kind same) (note-Until t r.signal r.ts p (early same) h)
        | no other ↦ rw (neq→== p.metric_type kind other) h
      ] in
    fold-NoLater kind t points _ hs step

fold-later :
    (kind : ℕ) (t : ℤ) (v : ℕ) (points : List MetricPoint)
    → All (λ x. x.metric_type ≡ kind → int_leb t x.timestamp ≡ false) points
    → fold kind points (record { signal = some v; ts = t }) ≡ record { signal = some v; ts = t }
unfolding note
fold-later kind t v [] hs = refl
fold-later kind t v (p ∷ points) (late, hs) = ground (arith, fold-later kind t v points hs)

replaces-Until :
    (s : Option ℕ) (ts : ℤ) (p : MetricPoint) → Until s ts p.timestamp → replaces s ts p ≡ true
replaces-Until none ts p h = refl
replaces-Until (some v) ts p h = h

note-NoLater :
    (r : Reading) (p : MetricPoint)
    → NoLater p.timestamp r
    → note r p ≡ record { signal = some (normalize_access_signal p.value); ts = p.timestamp }
unfolding note
note-NoLater r p h = rw (replaces-Until r.signal r.ts p h)

fold-IsLatest :
    {kind : ℕ} {points : List MetricPoint} {p : MetricPoint}
    → IsLatest kind points p
    → fold kind points (record { signal = none; ts = pos 0 })
      ≡ record { signal = some (normalize_access_signal p.value); ts = p.timestamp }
fold-IsLatest {kind = kind} {p = p} l =
    let start : Reading = record { signal = none; ts = pos 0 } in
    rw
      (
        l.split,
        fold-append kind l.before (p ∷ l.after) start,
        eq→== p.metric_type kind l.typed,
        note-NoLater _ p (fold-NoLater kind p.timestamp l.before start l.earlier tt),
      )
      (fold-later kind p.timestamp _ l.after l.later)

both : (a b : Bool) → ((if a then 1 else 0) == 1 && (if b then 1 else 0) == 1) ≡ (a && b)
both a b = ground arith

worded :
    (a b : Bool)
    → status_text_of (some ((if a then 1 else 0) == 1 && (if b then 1 else 0) == 1))
      ≡ (if a && b then text "open" else text "closed")
unfolding status_text_of
worded true true = refl
worded true false = refl
worded false b = refl

-- The bits of a float32 whose value is at least 1: the sign is plus, the exponent is 127 or more, and
-- it is a number (an exponent of 255 with a mantissa is none).
abbrev pub IsOneOrMore : ℕ → Type 0
IsOneOrMore bits =
    (bits < 2147483648) × (127 ≤ bits / 8388608) × ((bits / 8388608 ≡ 255) → bits % 8388608 ≡ 0)

at_least_one-IsOneOrMore : (bits : ℕ) → at_least_one bits ≡ true → IsOneOrMore bits
unfolding at_least_one
at_least_one-IsOneOrMore bits h =
    let above : 1065353216 ≤ bits = ground (arith, h) in
    let below : bits ≤ 2139095040 = ground (arith, h) in
    (omega arith, omega arith, λ e. omega arith)

IsOneOrMore-at_least_one : (bits : ℕ) → IsOneOrMore bits → at_least_one bits ≡ true
unfolding at_least_one
IsOneOrMore-at_least_one bits (plus, large, number) =
    let above : 1065353216 ≤ bits = omega arith in
    let below : bits ≤ 2139095040 = elim (ℕ_discrete (bits / 8388608) 255) [
      | yes top ↦ let exact = number top in omega arith
      | no other ↦ omega arith
    ] in
    ground arith

evaluate_latest_bits :
    {points : List MetricPoint} {p q : MetricPoint}
    → IsLatest metric_type_access_signal_a points p
    → IsLatest metric_type_access_signal_b points q
    → (let s = evaluate_access_control points in
        (s.is_open ≡ some (at_least_one p.value && at_least_one q.value))
        × (s.signal_a ≡ some (normalize_access_signal p.value))
        × (s.signal_b ≡ some (normalize_access_signal q.value))
        × (s.status_text ≡ (
            if at_least_one p.value && at_least_one q.value then text "open" else text "closed")))
unfolding evaluate_access_control door normalize_access_signal status_text_of
evaluate_latest_bits {points = points} {p = p} {q = q} hp hq =
    let start : Reading = record { signal = none; ts = pos 0 } in
    rw (scan-fold points start start, fold-IsLatest hp, fold-IsLatest hq)
      (
        ap some (both (at_least_one p.value) (at_least_one q.value)),
        ap (λ (r : Reading). r.signal)
            (ap (λ (r : Reading × Reading). r.0) (scan-fold points start start) ∙ fold-IsLatest hp),
        ap (λ (r : Reading). r.signal)
            (ap (λ (r : Reading × Reading). r.1) (scan-fold points start start) ∙ fold-IsLatest hq),
        worded (at_least_one p.value) (at_least_one q.value),
      )

-- The normalised signal of a point.
abbrev pub SignalOf : Option ℕ → ℕ → Type 0
SignalOf signal bits =
    (IsOneOrMore bits × (signal ≡ some 1)) ⊎ ((¬ IsOneOrMore bits) × (signal ≡ some 0))

-- The door by the values of the two points.
abbrev pub DoorOf : AccessControlState → ℕ → ℕ → Type 0
DoorOf s x y =
    ((IsOneOrMore x × IsOneOrMore y) × (s.is_open ≡ some true) × (s.status_text ≡ text "open"))
    ⊎ ((¬ (IsOneOrMore x × IsOneOrMore y))
        × (s.is_open ≡ some false)
        × (s.status_text ≡ text "closed"))

more_or_less : (bits : ℕ) → IsOneOrMore bits ⊎ (¬ IsOneOrMore bits)
more_or_less bits = elim (Bool-cases (at_least_one bits)) [
  | inl more ↦ inl (at_least_one-IsOneOrMore bits more)
  | inr under ↦ inr (λ more.
      let clash : true ≡ false = sym (IsOneOrMore-at_least_one bits more) ∙ under in absurd (cc))
]

less_than_one : (bits : ℕ) → ¬ IsOneOrMore bits → at_least_one bits ≡ false
less_than_one bits less = elim (Bool-cases (at_least_one bits)) [
  | inl more ↦ absurd (less (at_least_one-IsOneOrMore bits more))
  | inr under ↦ under
]

normalize_access_signal-SignalOf :
    (signal : Option ℕ) (bits : ℕ)
    → signal ≡ some (normalize_access_signal bits)
    → SignalOf signal bits
unfolding normalize_access_signal
normalize_access_signal-SignalOf signal bits h = elim (more_or_less bits) [
  | inl more ↦
      inl (more, h ∙ ap (λ b. some (if b then 1 else 0)) (IsOneOrMore-at_least_one bits more))
  | inr less ↦ inr (less, h ∙ ap (λ b. some (if b then 1 else 0)) (less_than_one bits less))
]

not_both :
    (x y : ℕ) → ¬ (IsOneOrMore x × IsOneOrMore y) → (at_least_one x && at_least_one y) ≡ false
not_both x y h = elim (Bool-cases (at_least_one x)) [
  | inr under ↦ rw under
  | inl yes_ ↦ rw yes_ (less_than_one y (λ more. h (at_least_one-IsOneOrMore x yes_, more)))
]

-- The latest point of each of the two signals decides, for any points in any order: the door is open
-- where both of their values are at least 1 and closed otherwise, and each signal of the answer is 1
-- where its point's value is at least 1 and 0 otherwise.
pub evaluate_latest :
    {points : List MetricPoint} {p q : MetricPoint}
    → IsLatest metric_type_access_signal_a points p
    → IsLatest metric_type_access_signal_b points q
    → (let s = evaluate_access_control points in
        DoorOf s p.value q.value × SignalOf s.signal_a p.value × SignalOf s.signal_b q.value)
evaluate_latest {points = points} {p = p} {q = q} hp hq =
    let (open_, signal_a, signal_b, worded_) = evaluate_latest_bits hp hq in
    let word : Bool → Text = λ b. if b then text "open" else text "closed" in
    let opens : IsOneOrMore p.value
        → IsOneOrMore q.value
        → (at_least_one p.value && at_least_one q.value) ≡ true =
      λ x y. rw (IsOneOrMore-at_least_one p.value x) (IsOneOrMore-at_least_one q.value y) in
    let shut : (¬ (IsOneOrMore p.value × IsOneOrMore q.value))
        → DoorOf (evaluate_access_control points) p.value q.value =
      λ other.
        let closed = not_both p.value q.value other in
        inr (other, open_ ∙ ap some closed, worded_ ∙ ap word closed) in
    (
      elim (more_or_less p.value) [
        | inr less ↦ shut (λ both_. less both_.0)
        | inl x ↦ elim (more_or_less q.value) [
          | inr less ↦ shut (λ both_. less both_.1)
          | inl y ↦ inl ((x, y), open_ ∙ ap some (opens x y), worded_ ∙ ap word (opens x y))
        ]
      ],
      normalize_access_signal-SignalOf _ p.value signal_a,
      normalize_access_signal-SignalOf _ q.value signal_b,
    )

door-none : (a : Option ℕ) → door a none ≡ none
unfolding door
door-none none = refl
door-none (some x) = refl

absent :
    (points : List MetricPoint)
    → (Lacks metric_type_access_signal_a points ⊎ Lacks metric_type_access_signal_b points)
    → (let start : Reading = record { signal = none; ts = pos 0 } in
        door
          (fold metric_type_access_signal_a points start).signal
          (fold metric_type_access_signal_b points start).signal)
      ≡ none
unfolding door
absent points (inl h) = rw (fold-Lacks metric_type_access_signal_a points _ h)
absent points (inr h) = rw (fold-Lacks metric_type_access_signal_b points _ h) (door-none _)

-- Without a point of one of the two signals the door's state is unknown.
pub evaluate_missing :
    (points : List MetricPoint)
    → (Lacks metric_type_access_signal_a points ⊎ Lacks metric_type_access_signal_b points)
    → ((evaluate_access_control points).is_open ≡ none)
      × ((evaluate_access_control points).status_text ≡ text "unknown")
unfolding evaluate_access_control status_text_of
evaluate_missing points h =
    let start : Reading = record { signal = none; ts = pos 0 } in
    let shut = absent points h in rw (scan-fold points start start, shut) (refl, refl)
