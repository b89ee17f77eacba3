-- ===== src/Logbuf/Visitor.antt =====
-- `LineVisitor` of src/logbuf.rs: how an event's fields become one line. The `Debug` form of a
-- value is std's, so a value comes as the text that it prints.
use ement_e2ee.Prelude.{
  ℕ, Bool, ◌||◌, ◌&&◌, [], ◌∷◌, ◌++◌, Text, codes, eqb, leb, ◌==◌, if◌then◌else◌, is_empty,
}

pub record LineVisitor : Type 0 where
  pub message : Text
  pub fields : Text

abbrev pub default : LineVisitor
default = record { message = []; fields = [] }

-- Unicode's `White_Space`, as `char::is_whitespace` has it.
unfoldable pub is_whitespace : ℕ → Bool
is_whitespace c =
    (leb 9 c && leb c 13)
    || c == 32
    || c == 0x85
    || c == 0xa0
    || c == 0x1680
    || (leb 0x2000 c && leb c 0x200a)
    || c == 0x2028
    || c == 0x2029
    || c == 0x202f
    || c == 0x205f
    || c == 0x3000

unfoldable pub trim_start : Text → Text
unfolding is_whitespace
trim_start [] = []
trim_start (c ∷ s) = if is_whitespace c then trim_start s else c ∷ s

-- `record_debug` and `record_str`, which differ in how the value is printed.
unfoldable pub record_field : Text → Text → LineVisitor → LineVisitor
record_field name value v =
    if eqb name (codes "message")
    then record v { message = v.message ++ value }
    else record v { fields = v.fields ++ codes " " ++ name ++ codes "=" ++ value }

unfoldable pub finish : LineVisitor → Text
unfolding trim_start
finish v =
    if is_empty v.fields
    then v.message
    else if is_empty v.message
    then trim_start v.fields
    else v.message ++ v.fields
