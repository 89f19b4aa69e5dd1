-- ===== src/Locking/Pages.antt =====
-- backend/locking/locking.go: the pages that the loop of HeldSeats goes through.
use grab_seat.Base.{
  ℕ, zero, suc, ◌+◌, ◌<◌, ◌≤◌, true, false, ◌≡◌, refl, subst, inl, inr, List, [], ◌∷◌, Option, none,
  some, Bool-cases, is_some, arith, ◌==◌, if◌then◌else◌,
}
use grab_seat.Service.{Result, ok, err, scan, Event, Prog}
use grab_seat.Service.Paths.{Ensures, Ensures-bind, Ensures-keeps, Ensures-mono}
use grab_seat.Locking.Keys.{hold_prefix}
use grab_seat.Locking.Held.{Held, take_page, after_page, after_scan, scan_from, held_seats}

abbrev is_more : Event → ℕ
is_more (scan cursor prefix, ok (keys, next)) = if next == 0 then 0 else 1
is_more _ = 0

-- The pages of SCAN so far after which there was another.
abbrev pub more_pages : List Event → ℕ
more_pages [] = 0
more_pages (e ∷ es) = is_more e + more_pages es

-- A scan from here that has no answer has used all its fuel on pages with a next one.
abbrev pub Spent : ℕ → List Event → Option (Result Held) → Type 0
Spent n fs a = a ≡ none → n ≤ more_pages fs

after_page-Spent :
    (again : ℕ → Held → Prog (Option (Result Held))) (n m next : ℕ) (r : Result Held)
    → ((next : ℕ) (out : Held) (es : List Event)
        → m ≤ more_pages es
        → Ensures (Spent n) es (again next out))
    → (es : List Event) → ((next == 0) ≡ false → m ≤ more_pages es)
    → Ensures (Spent n) es (after_page again next r)
unfolding after_page
after_page-Spent again n m next (err e) ih es h = λ is_none. cc
after_page-Spent again n m next (ok out) ih es h = elim (Bool-cases (next == 0)) [
  | inl last ↦ rw last (λ is_none. cc)
  | inr more ↦ rw more (ih next out es (h more))
]

scan_from-Spent :
    (fuel cursor m : ℕ) (out : Held) (es : List Event)
    → m ≤ more_pages es
    → Ensures (Spent (fuel + m)) es (scan_from fuel cursor out)
unfolding scan_from after_scan
scan_from-Spent zero cursor m out es h = λ _. omega (arith, h)
scan_from-Spent (suc fuel) cursor m out es h = elim [
  | err e ↦ λ is_none. cc
  | ok (keys, next) ↦
      let e : Event = (scan cursor hold_prefix, ok (keys, next)) in
      let same : fuel + suc m ≡ suc fuel + m = omega arith in
      let J : List Event → Type 0 = λ fs. (next == 0) ≡ false → suc m ≤ more_pages fs in
      Ensures-bind (λ fs _. J fs) (Spent (suc fuel + m)) (e ∷ es) (take_page keys out)
        (after_page (scan_from fuel) next)
        (Ensures-keeps J (λ f fs j more. ground (arith, j more)) (e ∷ es) (take_page keys out)
          (λ more. ground (arith, more, h)))
        (λ fs r.
          after_page-Spent (scan_from fuel) (suc fuel + m) (suc m) next r
            (λ next' out' es' h'.
              subst (λ z. Ensures (Spent z) es' (scan_from fuel next' out')) same
                (scan_from-Spent fuel next' (suc m) out' es' h'))
            fs)
]

pub held_seats-Spent : (fuel : ℕ) (es : List Event) → Ensures (Spent fuel) es (held_seats fuel)
unfolding held_seats
held_seats-Spent fuel es =
    let same : fuel + 0 ≡ fuel = omega arith in
    subst (λ n. Ensures (Spent n) es (scan_from fuel 0 [])) same
      (scan_from-Spent fuel 0 0 [] es (omega arith))

-- HeldSeats has an answer, a list or an error, whenever its fuel is more than the number of pages
-- after which Redis announced another.
pub held_seats-ends :
    (fuel : ℕ) → Ensures (λ es a. more_pages es < fuel → is_some a ≡ true) [] (held_seats fuel)
held_seats-ends fuel =
    Ensures-mono (Spent fuel) (λ es a. more_pages es < fuel → is_some a ≡ true)
      (λ es. elim [
        | none ↦ λ spent enough. absurd (omega (arith, spent refl, enough))
        | some a ↦ λ spent enough. refl
      ])
      [] (held_seats fuel) (held_seats-Spent fuel [])
