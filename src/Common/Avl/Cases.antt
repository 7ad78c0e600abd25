-- ===== src/Common/Avl/Cases.antt =====
-- Comparisons and tests by cases, for the operations of src-api/common/avl.c.
use Prim.Native.Nat.{Ordering}
use Prim.Native.Nat.Ordering.{lt, eq, gt}
use olsrd.Base.{◌≡◌, refl, Bool, true, false, Option, none, some}

-- The cases of a comparison.
pub data Compared (o : Ordering) : Type 0 where
  is_lt : o ≡ lt → Compared o
  is_eq : o ≡ eq → Compared o
  is_gt : o ≡ gt → Compared o

pub ordering_of : (o : Ordering) → Compared o
ordering_of lt = is_lt refl
ordering_of eq = is_eq refl
ordering_of gt = is_gt refl

-- The cases of a test.
pub data Answer (b : Bool) : Type 0 where
  is_true : b ≡ true → Answer b
  is_false : b ≡ false → Answer b

pub bool_of : (b : Bool) → Answer b
bool_of true = is_true refl
bool_of false = is_false refl

-- The cases of an answer that may be missing.
pub data Given {ℓ} {A : Type ℓ} (o : Option A) : Type ℓ where
  is_none : o ≡ none → Given o
  is_some_of : (a : A) → o ≡ some a → Given o

pub option_of {ℓ} : {A : Type ℓ} (o : Option A) → Given o
option_of none = is_none refl
option_of (some a) = is_some_of a refl
