-- ===== src/Prelude/Stateful.antt =====
-- Code that changes a state and may fail: a failure keeps the changes made before it.
use mathlib.Core.Path.{◌≡◌, refl}
use snp.Prelude.Fallible.{Result, ok, err}

abbrev pub Stateful : Type 0 → Type 0 → Type 0 → Type 0
Stateful S E A = S → S × Result E A

abbrev pub and_then : {S E A B : Type 0} → S × Result E A → (A → Stateful S E B) → S × Result E B
and_then (s, ok a) f = f a s
and_then (s, err x) f = (s, err x)

infixl 5 ◌>>=◌ ◌>>◌
abbrev pub ◌>>=◌ : {S E A B : Type 0} → Stateful S E A → (A → Stateful S E B) → Stateful S E B
◌>>=◌ m f s = and_then (m s) f

abbrev pub ◌>>◌ : {S E B : Type 0} → Stateful S E (Unit {0}) → Stateful S E B → Stateful S E B
◌>>◌ m k s = and_then (m s) (λ _. k)

abbrev pub return : {S E A : Type 0} → A → Stateful S E A
return a s = (s, ok a)

abbrev pub lift : {S E A : Type 0} → Result E A → Stateful S E A
lift r s = (s, r)

-- What a step keeps of the state, whatever its result.
abbrev pub Keeps {ℓ} : {S E A : Type 0} → (S → Type ℓ) → Stateful S E A → Type ℓ
Keeps {S = S} P m = (s : S) → P s → P (m s).0

and_then-Keeps {ℓ} :
    {S E A B : Type 0} (P : S → Type ℓ) (p : S × Result E A) (f : A → Stateful S E B)
    → P p.0
    → ((a : A) → Keeps P (f a))
    → P (and_then p f).0
and_then-Keeps P (s, ok a) f h k = k a s h
and_then-Keeps P (s, err x) f h k = h

pub bind-Keeps {ℓ} :
    {S E A B : Type 0} (P : S → Type ℓ) (m : Stateful S E A) (f : A → Stateful S E B)
    → Keeps P m
    → ((a : A) → Keeps P (f a))
    → Keeps P (m >>= f)
bind-Keeps P m f h k s p = and_then-Keeps P (m s) f (h s p) k

-- Inversion of a step that was a success.
pub and_then-ok :
    {S E A B : Type 0} (p : S × Result E A) (f : A → Stateful S E B) {s' : S} {b : B}
    → and_then p f ≡ (s', ok b)
    → (a : A) × (s : S) × (p ≡ (s, ok a)) × (f a s ≡ (s', ok b))
and_then-ok (s, ok a) f h = (a, s, refl, h)
and_then-ok (s, err x) f h = cc
