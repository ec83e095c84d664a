-- ===== src/Common/Run.antt =====
-- What a part of the program comes to that may throw, or do what the language leaves undefined.
use mathlib.Core.Path.{◌≡◌, refl, subst}
use mathlib.Core.Option.{Option, none, some}

-- `out_of_bounds` is a read or write behind a buffer; `out_of_fuel` is of the model only.
pub data Run {ℓ κ} (E : Type ℓ) (T : Type κ) : Type (ℓ ⊔ κ) where
  finished : T → Run E T
  throws : E → Run E T
  out_of_bounds : Run E T
  out_of_fuel : Run E T

infixl 5 ◌>>=◌
abbrev pub ◌>>=◌ {ℓ κ μ} :
    {E : Type ℓ} {T : Type κ} {S : Type μ} → Run E T → (T → Run E S) → Run E S
finished t >>= next = next t
throws e >>= next = throws e
out_of_bounds >>= next = out_of_bounds
out_of_fuel >>= next = out_of_fuel

abbrev pub in_bounds {ℓ κ} : {E : Type ℓ} {T : Type κ} → Option T → Run E T
in_bounds none = out_of_bounds
in_bounds (some t) = finished t

-- What is returned satisfies `P`, and the fuel was enough; errors are left open.
abbrev pub Ensures {ℓ κ} : {E : Type ℓ} {T : Type κ} → (T → Type 0) → Run E T → Type 0
Ensures P (finished t) = P t
Ensures P (throws e) = Unit {0}
Ensures P out_of_bounds = Unit {0}
Ensures P out_of_fuel = ⊥

pub bind-Ensures {ℓ κ μ} :
    {E : Type ℓ} {T : Type κ} {S : Type μ} (P : T → Type 0) (Q : S → Type 0) (m : Run E T)
    (f : T → Run E S)
    → Ensures P m
    → ((t : T) → P t → Ensures Q (f t))
    → Ensures Q (m >>= f)
bind-Ensures P Q (finished t) f h k = k t h
bind-Ensures P Q (throws e) f h k = tt
bind-Ensures P Q out_of_bounds f h k = tt
bind-Ensures P Q out_of_fuel f h k = h

-- After a read only what is read matters.
pub in_bounds-Ensures {ℓ κ μ} :
    {E : Type ℓ} {T : Type κ} {S : Type μ} (Q : S → Type 0) (o : Option T) (f : T → Run E S)
    → ((t : T) → Ensures Q (f t))
    → Ensures Q (in_bounds o >>= f)
in_bounds-Ensures Q none f h = tt
in_bounds-Ensures Q (some t) f h = h t

pub in_bounds-Ensures_read {ℓ κ μ} :
    {E : Type ℓ} {T : Type κ} {S : Type μ} (Q : S → Type 0) (o : Option T) (f : T → Run E S)
    → ((t : T) → o ≡ some t → Ensures Q (f t))
    → Ensures Q (in_bounds o >>= f)
in_bounds-Ensures_read Q none f h = tt
in_bounds-Ensures_read Q (some t) f h = h t refl

pub Ensures-finished {ℓ κ} :
    {E : Type ℓ} {T : Type κ} (P : T → Type 0) (m : Run E T) (t : T)
    → Ensures P m
    → m ≡ finished t
    → P t
Ensures-finished P m t h e = subst (Ensures P) e h
