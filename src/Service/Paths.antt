-- ===== src/Service/Paths.antt =====
-- What a program ensures whatever the services reply.
use grab_seat.Base.{Bool, true, false, ◌≡◌, refl, List, ◌∷◌, All, if◌then◌else◌}
use grab_seat.Service.{Call, Reply, Prog, ret, call, Event, ◌>>=◌}

-- `Q es a` at every end: the calls made, the last first, behind those in the argument, and the result.
abbrev pub Ensures : {A : Type 0} → (List Event → A → Type 0) → List Event → Prog A → Type 0
Ensures Q es (ret a) = Q es a
Ensures Q es (call c k) = (r : Reply c) → Ensures Q ((c, r) ∷ es) (k r)

pub Ensures-bind :
    {A B : Type 0} (P : List Event → A → Type 0) (Q : List Event → B → Type 0) (es : List Event)
    (m : Prog A) (f : A → Prog B)
    → Ensures P es m
    → ((fs : List Event) (a : A) → P fs a → Ensures Q fs (f a))
    → Ensures Q es (m >>= f)
Ensures-bind P Q es (ret a) f h g = g es a h
Ensures-bind P Q es (call c k) f h g = λ r. Ensures-bind P Q ((c, r) ∷ es) (k r) f (h r) g

pub Ensures-mono :
    {A : Type 0} (P Q : List Event → A → Type 0)
    → ((es : List Event) (a : A) → P es a → Q es a)
    → (es : List Event) (m : Prog A) → Ensures P es m
    → Ensures Q es m
Ensures-mono P Q f es (ret a) h = f es a h
Ensures-mono P Q f es (call c k) h = λ r. Ensures-mono P Q f ((c, r) ∷ es) (k r) (h r)

-- What later calls cannot undo still holds after any program.
pub Ensures-keeps :
    {A : Type 0} (J : List Event → Type 0)
    → ((e : Event) (es : List Event) → J es → J (e ∷ es))
    → (es : List Event) (m : Prog A) → J es
    → Ensures (λ fs _. J fs) es m
Ensures-keeps J later es (ret a) h = h
Ensures-keeps J later es (call c k) h =
    λ r. Ensures-keeps J later ((c, r) ∷ es) (k r) (later (c, r) es h)

pub Ensures-both :
    {A : Type 0} (P Q : List Event → A → Type 0) (es : List Event) (m : Prog A)
    → Ensures P es m
    → Ensures Q es m
    → Ensures (λ fs a. P fs a × Q fs a) es m
Ensures-both P Q es (ret a) h k = (h, k)
Ensures-both P Q es (call c next) h k = λ r. Ensures-both P Q ((c, r) ∷ es) (next r) (h r) (k r)

-- What holds of every result, whatever the calls.
pub Ensures-any :
    {A : Type 0} (Q : List Event → A → Type 0)
    → ((es : List Event) (a : A) → Q es a)
    → (es : List Event) (m : Prog A) → Ensures Q es m
Ensures-any Q f es (ret a) = f es a
Ensures-any Q f es (call c k) = λ r. Ensures-any Q f ((c, r) ∷ es) (k r)

-- Every call that the program can make, whatever the replies, satisfies `P`.
abbrev pub Only : {A : Type 0} → (Call → Type 0) → Prog A → Type 0
Only P (ret a) = Unit
Only P (call c k) = P c × ((r : Reply c) → Only P (k r))

pub Only-bind :
    {A B : Type 0} (P : Call → Type 0) (m : Prog A) (f : A → Prog B)
    → Only P m
    → ((a : A) → Only P (f a))
    → Only P (m >>= f)
Only-bind P (ret a) f h g = g a
Only-bind P (call c k) f (h, rest) g = (h, λ r. Only-bind P (k r) f (rest r) g)

pub Only-mono :
    {A : Type 0} (P Q : Call → Type 0)
    → ((c : Call) → P c → Q c)
    → (m : Prog A) → Only P m
    → Only Q m
Only-mono P Q f (ret a) h = tt
Only-mono P Q f (call c k) (h, rest) = (f c h, λ r. Only-mono P Q f (k r) (rest r))

-- A test of the code: either way, with what it found.
pub Only-if :
    {A : Type 0} (P : Call → Type 0) (b : Bool) (m n : Prog A)
    → (b ≡ true → Only P m)
    → (b ≡ false → Only P n)
    → Only P (if b then m else n)
Only-if P true m n h k = h refl
Only-if P false m n h k = k refl

-- So every call that was made satisfies it.
pub Only-Ensures :
    {A : Type 0} (P : Call → Type 0) (es : List Event) (m : Prog A)
    → Only P m
    → All (λ e. P e.0) es
    → Ensures (λ fs _. All (λ e. P e.0) fs) es m
Only-Ensures P es (ret a) h made = made
Only-Ensures P es (call c k) (h, rest) made =
    λ r. Only-Ensures P ((c, r) ∷ es) (k r) (rest r) (h, made)
