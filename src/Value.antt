-- ===== src/Value.antt =====
-- The values that action parameters hold: what `json` makes of a document. A float is a dyadic
-- fraction, mantissa / 2 ^ exponent, which every finite float is; NaN and the infinities, which are
-- not JSON, are left out. A tuple is read as a list.
use era_ai.Prelude.{
  ℕ, ◌+◌, String, Bool, true, false, ◌&&◌, Option, none, some, str_eq, ◌==◌, if◌then◌else◌,
}
use era_ai.Prelude.Int.{ℤ, pos, int_eq, shift_left}

mutual
  pub data Value : Type 0 where
    null : Value
    bool : Bool → Value
    int : ℤ → Value
    float : ℤ → ℕ → Value
    str : String → Value
    obj : Fields → Value
    arr : Items → Value

  pub data Fields : Type 0 where
    end : Fields
    field : String → Value → Fields → Fields

  pub data Items : Type 0 where
    nil : Items
    cons : Value → Items → Items

-- `d.get(k)` of a dict of values
unfoldable pub get_field : String → Fields → Option Value
get_field k end = none
get_field k (field j v fs) = if str_eq j k then some v else get_field k fs

abbrev pub count_fields : Fields → ℕ
count_fields end = 0
count_fields (field j v fs) = count_fields fs + 1

abbrev pub count_items : Items → ℕ
count_items nil = 0
count_items (cons v vs) = count_items vs + 1

-- A number as mantissa and exponent: `True` is 1, as Python compares it.
abbrev pub number : Value → Option (ℤ × ℕ)
number (bool true) = some (pos 1, 0)
number (bool false) = some (pos 0, 0)
number (int n) = some (n, 0)
number (float m e) = some (m, e)
number _ = none

same_number : Option (ℤ × ℕ) → Option (ℤ × ℕ) → Bool
same_number (some (a, i)) (some (b, j)) = int_eq (shift_left a j) (shift_left b i)
same_number _ _ = false

same_text : String → Value → Bool
same_text s (str t) = str_eq s t
same_text s _ = false

is_null : Value → Bool
is_null null = true
is_null _ = false

-- Python's `v == w`. Dicts are equal if they hold equal values at the same keys, in any order.
unfoldable mutual
  unfolding same_number same_text is_null get_field

  pub py_eq : Value → Value → Bool
  py_eq null w = is_null w
  py_eq (bool b) w = same_number (number (bool b)) (number w)
  py_eq (int n) w = same_number (number (int n)) (number w)
  py_eq (float m e) w = same_number (number (float m e)) (number w)
  py_eq (str s) w = same_text s w
  py_eq (arr xs) w = elim w [ arr ys ↦ items_eq xs ys | _ ↦ false ]
  py_eq (obj fs) w = elim w [
    | obj gs ↦ (count_fields fs == count_fields gs) && fields_in fs gs
    | _ ↦ false
  ]

  pub items_eq : Items → Items → Bool
  items_eq nil ys = elim ys [ nil ↦ true | _ ↦ false ]
  items_eq (cons x xs) ys = elim ys [ nil ↦ false | cons y zs ↦ py_eq x y && items_eq xs zs ]

  pub fields_in : Fields → Fields → Bool
  fields_in end gs = true
  fields_in (field k v fs) gs = elim (get_field k gs) [
    | none ↦ false
    | some w ↦ py_eq v w && fields_in fs gs
  ]
