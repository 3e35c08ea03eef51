-- ===== src/Float.antt =====
-- Go's `float64`: what the code does with it, as an interface, and the IEEE 754 facts that the
-- proofs use. The type and its operations are built into Go, so they stay abstract here;
-- `Float.Fixed` is one concrete value of the interface.
pub mod Fixed
use distributed_gpu_training.Base.{ℕ, ◌≡◌, ◌⊎◌, Bool, true, false, not, ◌&&◌, ◌||◌, ◌≤◌, ◌*◌, ◌^◌}
use distributed_gpu_training.Base.Int.{ℤ}

pub record Float64 (F : Type 0) : Type 0 where
  -- The literal `m / 10 ^ k`.
  pub lit : ℕ → ℕ → F
  -- `float64(n)` and `int64(x)`.
  pub of_int : ℤ → F
  pub to_int : F → ℤ
  pub add : F → F → F
  pub sub : F → F → F
  pub mul : F → F → F
  pub div : F → F → F
  -- `math.Sqrt`, `math.Abs`, `math.Max` and the built-in `min`.
  pub sqrt : F → F
  pub abs : F → F
  pub fmax : F → F → F
  pub fmin : F → F → F
  -- `<`, `<=` and `==`; all three are false on NaN.
  pub lt : F → F → Bool
  pub le : F → F → Bool
  pub eq : F → F → Bool

module _ {F : Type 0} ⦃d : Float64 F⦄ where
  abbrev pub is_nan : F → Bool
  is_nan x = not (d.eq x x)

  -- The order of `sort.Float64s`: NaN values come first.
  abbrev pub float_less : F → F → Bool
  float_less x y = d.lt x y || (is_nan x && not (is_nan y))

  abbrev pub IsNumber : F → Type 0
  IsNumber x = d.eq x x ≡ true

  abbrev pub zero_f : F
  zero_f = d.lit 0 0

-- IEEE 754 on the order of the values, and what Go documents of `min` and of literals.
pub record IsFloat64 (F : Type 0) ⦃d : Float64 F⦄ : Type 0 where
  pub lt_asym : (x y : F) → d.lt x y ≡ true → d.lt y x ≡ false
  pub lt_number : (x y : F) → d.lt x y ≡ true → IsNumber x × IsNumber y
  pub le_number : (x y : F) → d.le x y ≡ true → IsNumber x × IsNumber y
  pub le-eq-not-lt : (x y : F) → IsNumber x → IsNumber y → d.le x y ≡ not (d.lt y x)
  pub le_trans : (x y z : F) → d.le x y ≡ true → d.le y z ≡ true → d.le x z ≡ true
  -- `min(x, y)` is never above `y`, and is NaN where one of them is.
  pub fmin_right : (x y : F) → d.lt y (d.fmin x y) ≡ false
  pub lit_number : (m k : ℕ) → IsNumber (d.lit m k)
  pub lit_le : (m k n j : ℕ) → m * 10 ^ j ≤ n * 10 ^ k → d.le (d.lit m k) (d.lit n j) ≡ true
