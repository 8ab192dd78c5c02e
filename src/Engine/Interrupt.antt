-- ===== src/Engine/Interrupt.antt =====
-- define/interrupt_error.go: CreateInterruptError and the message of an interrupt error. A text here
-- is the bytes of the string constant.
use polar_db_stack_common.Common.{
  ℕ, zero, suc, ◌≡◌, ap, ◌∙◌, List, [], ◌∷◌, ◌++◌, Option, none, some,
}
use polar_db_stack_common.Common.Text.{
  split_byte-free, split_byte-append, Text, codes, split_byte, IsFree,
}

pub record InterruptError : Type 0 where
  pub name : Text
  pub error : Option Text
  pub reason : Text
  pub component : Text

abbrev with_component : Text → Text → Text
with_component [] msg = msg
with_component (c ∷ component) msg = b'[' ∷ (c ∷ component) ++ codes "] " ++ msg

abbrev with_error : Text → Option Text → Text → Text
with_error reason none msg = msg
with_error [] (some e) msg = msg ++ e
with_error (c ∷ reason) (some e) msg = msg ++ codes ", error: " ++ e

-- `ToString`
unfoldable pub to_string : InterruptError → Text
to_string e = with_error e.reason e.error (with_component e.component e.reason)

-- The i-th field where there is one.
abbrev field : ℕ → List Text → Text
field i [] = []
field zero (f ∷ fields) = f
field (suc i) (f ∷ fields) = field i fields

-- The code reads name, reason and component in this order.
abbrev of_fields : Option Text → List Text → InterruptError
of_fields error val = record {
  name = field 0 val;
  error = error;
  reason = field 1 val;
  component = field 2 val;
}

-- The interrupt error of an enumeration's text.
unfoldable pub parse_enum : Text → Option Text → InterruptError
parse_enum e error = of_fields error (split_byte b'|' e)

-- `CreateInterruptError`: the name and the message that the workflow's error is made of.
unfoldable pub create_interrupt_error : Text → Option Text → Text × Text
create_interrupt_error e error = ((parse_enum e error).name, to_string (parse_enum e error))

-- An enumeration's text with three fields, as the constants of the file are written.
abbrev pub enum_text : Text → Text → Text → Text
enum_text first second third = first ++ (b'|' ∷ (second ++ (b'|' ∷ third)))

-- For fields without the separator, CreateInterruptError takes the second field of
-- "name|second|third" for the reason and the third for the component, although the comment on the
-- constants says that the component stands second and the reason third; the message has the third
-- field in brackets before the second.
pub second_field_is_reason :
    (first second third : Text) (error : Option Text)
    → IsFree b'|' first
    → IsFree b'|' second
    → IsFree b'|' third
    → (parse_enum (enum_text first second third) error
        ≡ record { name = first; error = error; reason = second; component = third })
      × (create_interrupt_error (enum_text first second third) error ≡ (
        first,
        to_string (record { name = first; error = error; reason = second; component = third }),
      ))
unfolding parse_enum create_interrupt_error
second_field_is_reason first second third error a b c =
    let pieces : split_byte b'|' (enum_text first second third) ≡ first ∷ second ∷ third ∷ [] =
      split_byte-append b'|' first (second ++ (b'|' ∷ third)) a
      ∙ ap (λ (l : List Text). first ∷ l)
          (split_byte-append b'|' second third b
            ∙ ap (λ (l : List Text). second ∷ l) (split_byte-free b'|' third c)) in
    (
      ap (of_fields error) pieces,
      ap (λ (l : List Text). (field zero l, to_string (of_fields error l))) pieces,
    )
