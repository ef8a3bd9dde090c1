-- ===== src/Value.antt =====
-- Values of the Python program whose type is `Any`: what JSON has, and any other object by its
-- identity. A dict is a list of fields in the order of insertion.
use deep_agent_cli.Prelude.{
  eq_iff, ℕ, zero, String, ◌≡◌, refl, Bool, true, false, not, Option, none, some, arith, ◌==◌,
  nat_comparable, text_comparable, if◌then◌else◌,
}

-- A Python `int`; `negsuc n` is -(n + 1).
pub data ℤ : Type 0 where
  pos : ℕ → ℤ
  negsuc : ℕ → ℤ

mutual
  pub data Value : Type 0 where
    null : Value
    boolean : Bool → Value
    int : ℤ → Value
    text : String → Value
    array : Items → Value
    object : Fields → Value
    other : ℕ → Value

  pub data Items : Type 0 where
    nil : Items
    cons : Value → Items → Items

  pub data Fields : Type 0 where
    end : Fields
    field : String → Value → Fields → Fields

-- `d.get(k)`, which is `None` for a key that is not there.
unfoldable pub get : String → Fields → Value
get k end = null
get k (field j v d) = if k == j then v else get k d

-- `d.get(k, default)`
unfoldable pub get_or : Value → String → Fields → Value
get_or default k end = default
get_or default k (field j v d) = if k == j then v else get_or default k d

-- `{**d, k: v}`
unfoldable pub set_field : String → Value → Fields → Fields
set_field k v end = field k v end
set_field k v (field j w d) = if k == j then field k v d else field j w (set_field k v d)

abbrev pub is_object : Value → Bool
is_object (object d) = true
is_object _ = false

-- `v if isinstance(v, dict) else {}`
abbrev pub fields_of : Value → Fields
fields_of (object d) = d
fields_of _ = end

abbrev pub is_text : Value → Bool
is_text (text s) = true
is_text _ = false

-- `type(v) is int and v >= 0`
abbrev pub count_of : Value → Option ℕ
count_of (int (pos n)) = some n
count_of _ = none

-- `v if isinstance(v, int) and not isinstance(v, bool) else None`
abbrev pub int_of : Value → Option ℤ
int_of (int n) = some n
int_of _ = none

-- Python's truth value. Any other object is true.
abbrev pub truthy : Value → Bool
truthy null = false
truthy (boolean b) = b
truthy (int (pos zero)) = false
truthy (text s) = not (s == "")
truthy (array nil) = false
truthy (object end) = false
truthy _ = true

abbrev pub is_true : Value → Bool
is_true (boolean b) = b
is_true _ = false

abbrev pub is_null : Value → Bool
is_null null = true
is_null _ = false

-- `str(v or "")`, where `to_text` is Python's `str` on what is no text.
unfoldable pub text_or_empty : (Value → String) → Value → String
text_or_empty to_text (text s) = s
text_or_empty to_text v = if truthy v then to_text v else ""

-- `str(v or default)`
unfoldable pub text_or : (Value → String) → String → Value → String
text_or to_text default (text s) = if s == "" then default else s
text_or to_text default v = if truthy v then to_text v else default

pub get-set_field :
    (j k : String) (v : Value) (d : Fields)
    → get j (set_field k v d) ≡ (if j == k then v else get j d)
unfolding get set_field
get-set_field j k v end = refl
get-set_field j k v (field i w d) =
    ground (arith, get-set_field j k v d, eq_iff j k, eq_iff k i, eq_iff j i)
