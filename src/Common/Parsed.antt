-- ===== src/Common/Parsed.antt =====
-- What a parser of bytes comes to: an index or a slice out of bounds panics, a loop spins where its
-- rounds are used up and it would go on, `None`, `Some`.
use Prim.Native.Nat.{ℕ, ◌+◌, ◌<◌, ◌≤◌}
use mathlib.Core.Path.{◌≡◌, refl, subst}
use mathlib.Core.Logic.{◌≢◌}
use mathlib.Core.Bool.{Bool, true, false}
use mathlib.Core.Option.{Option, none, some}
use plain_rs.Common.Tests.{if◌then◌else◌, leb, le→leb}
use plain_rs.Common.Lists.{length, get_elem?, take, drop}
use plain_rs.Common.Slices.{get_elem?-lt}
use plain_rs.Common.Text.{Bytes}

pub data Parsed (A : Type 0) : Type 0 where
  panics spins fails : Parsed A
  gives : A → Parsed A

module _ {A B : Type 0} where
  infixl 5 ◌>>=◌
  abbrev pub ◌>>=◌ : Parsed A → (A → Parsed B) → Parsed B
  panics >>= f = panics
  spins >>= f = spins
  fails >>= f = fails
  gives a >>= f = f a

abbrev pub of_option : {A : Type 0} → Option A → Parsed A
of_option none = fails
of_option (some a) = gives a

-- `packet[i]`, in bounds or not
abbrev pub checked : Option ℕ → Parsed ℕ
checked none = panics
checked (some b) = gives b

abbrev pub index : Bytes → ℕ → Parsed ℕ
index packet i = checked (get_elem? packet i)

-- `packet[start..start + size]`
abbrev pub slice : Bytes → ℕ → ℕ → Parsed Bytes
slice packet start size =
    if leb (start + size) (length packet) then gives (take size (drop start packet)) else panics

-- `p && q` and `p || q`, where `q` is read only if it decides.
abbrev pub and_then : Parsed Bool → Parsed Bool → Parsed Bool
and_then p q = p >>= λ c. if c then q else gives false

abbrev pub or_else : Parsed Bool → Parsed Bool → Parsed Bool
or_else p q = p >>= λ c. if c then gives true else q

-- The parser comes to an end and does not index or slice out of bounds, and what it gives satisfies `P`.
abbrev pub Holds : {A : Type 0} → (A → Type 0) → Parsed A → Type 0
Holds P panics = ⊥
Holds P spins = ⊥
Holds P fails = Unit
Holds P (gives a) = P a

abbrev pub Safe : {A : Type 0} → Parsed A → Type 0
Safe = Holds (λ a. Unit {0})

pub Holds-bind :
    {A B : Type 0} (P : A → Type 0) (Q : B → Type 0) (m : Parsed A) (f : A → Parsed B)
    → Holds P m
    → ((a : A) → P a → Holds Q (f a))
    → Holds Q (m >>= f)
Holds-bind P Q panics f h k = h
Holds-bind P Q spins f h k = h
Holds-bind P Q fails f h k = tt
Holds-bind P Q (gives a) f h k = k a h

pub index-Safe : (packet : Bytes) (i : ℕ) → i < length packet → Safe (index packet i)
index-Safe packet i h = let (b, at) = get_elem?-lt i packet h in rw at tt

pub slice-Holds :
    (packet : Bytes) (start size : ℕ)
    → start + size ≤ length packet
    → Holds (λ s. s ≡ take size (drop start packet)) (slice packet start size)
slice-Holds packet start size h = rw (le→leb (start + size) (length packet) h) refl

pub slice-Safe :
    (packet : Bytes) (start size : ℕ)
    → start + size ≤ length packet
    → Safe (slice packet start size)
slice-Safe packet start size h = rw (le→leb (start + size) (length packet) h) tt

pub slice_inside :
    (packet : Bytes) (start size : ℕ)
    → start + size ≤ length packet
    → slice packet start size ≡ gives (take size (drop start packet))
slice_inside packet start size h = rw (le→leb (start + size) (length packet) h) refl

-- A result that holds is one of an end.
pub Holds-spins : {A : Type 0} (P : A → Type 0) (m : Parsed A) → Holds P m → m ≢ spins
Holds-spins P m h e = subst (Holds P) e h

pub Holds-if :
    {A : Type 0} (P : A → Type 0) (c : Bool) (r s : Parsed A)
    → ((c ≡ true) → Holds P r)
    → ((c ≡ false) → Holds P s)
    → Holds P (if c then r else s)
Holds-if P true r s h k = h refl
Holds-if P false r s h k = k refl

-- Reading a checked value before anything else.
pub Safe-bind :
    {A B : Type 0} (Q : B → Type 0) (m : Parsed A) (f : A → Parsed B)
    → Safe m
    → ((a : A) → Holds Q (f a))
    → Holds Q (m >>= f)
Safe-bind Q m f h k = Holds-bind _ Q m f h (λ a u. k a)

-- Equal branches, and equal continuations.
pub if_ext :
    {A : Type 0} (c : Bool) (r s t u : A)
    → ((c ≡ true) → r ≡ t)
    → ((c ≡ false) → s ≡ u)
    → (if c then r else s) ≡ (if c then t else u)
if_ext true r s t u h k = h refl
if_ext false r s t u h k = k refl

pub bind_ext :
    {A B : Type 0} (m : Parsed A) (f g : A → Parsed B)
    → ((a : A) → (m ≡ gives a) → f a ≡ g a)
    → (m >>= f) ≡ (m >>= g)
bind_ext panics f g h = refl
bind_ext spins f g h = refl
bind_ext fails f g h = refl
bind_ext (gives a) f g h = h a refl
