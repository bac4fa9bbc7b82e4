-- ===== src/Compile/Outcomes.antt =====
-- What a successful parse gives, carried through the `?` of engine_rules/src/lib.rs.
use correlation_engine.Prelude.{Bool, true, false, ◌≡◌, refl, if◌then◌else◌}
use correlation_engine.Compile.{Result, ok, err, ◌>>=◌}

-- a value that a result gives has the property; an error gives none
abbrev pub Gives {ℓ} : {A : Type ℓ} → (A → Type 0) → Result A → Type 0
Gives P (ok a) = P a
Gives P (err line why) = Unit {0}

pub Gives-bind {ℓ κ} :
    {A : Type ℓ} {B : Type κ} (P : A → Type 0) (Q : B → Type 0) (m : Result A) (f : A → Result B)
    → Gives P m
    → ((a : A) → P a → Gives Q (f a))
    → Gives Q (m >>= f)
Gives-bind P Q (ok a) f h k = k a h
Gives-bind P Q (err line why) f h k = tt

-- a result that is asked nothing
pub Gives-any {ℓ} : {A : Type ℓ} (m : Result A) → Gives (λ (a : A). Unit {0}) m
Gives-any (ok a) = tt
Gives-any (err line why) = tt

pub Gives-if {ℓ} :
    {A : Type ℓ} (P : A → Type 0) (b : Bool) (x y : Result A)
    → (b ≡ true → Gives P x)
    → (b ≡ false → Gives P y)
    → Gives P (if b then x else y)
Gives-if P true x y p q = p refl
Gives-if P false x y p q = q refl

pub Gives-ok {ℓ} : {A : Type ℓ} (P : A → Type 0) (m : Result A) {a : A} → Gives P m → m ≡ ok a → P a
Gives-ok P m h e = let h' : Gives P (ok _) = rw e at h in h'
