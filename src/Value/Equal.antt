-- ===== src/Value/Equal.antt =====
-- `==` on JSON values (`derive(PartialEq)` of `serde_json::Value`), which `HashableJson`
-- (directives/expressions/value_ext.rs) takes over.
use lopez.Prelude.{text_eq, Bool, true, false, not, ◌&&◌}
use lopez.Extern.{Extern}
use lopez.Value.{
  Value, Items, Fields, null, bool, number, string, array, object, nil, cons, end, field,
}

abbrev pub bool_eq : Bool → Bool → Bool
bool_eq true b = b
bool_eq false b = not b

module _ {ext : Extern} where
  unfoldable mutual
    pub json_eq : Value ext → Value ext → Bool
    json_eq null null = true
    json_eq (bool a) (bool b) = bool_eq a b
    json_eq (number n) (number m) = ext.number_eq n m
    json_eq (string s) (string t) = text_eq s t
    json_eq (array vs) (array ws) = items_eq vs ws
    json_eq (object fs) (object gs) = fields_eq fs gs
    json_eq _ _ = false

    pub items_eq : Items ext → Items ext → Bool
    items_eq nil nil = true
    items_eq (cons v vs) (cons w ws) = json_eq v w && items_eq vs ws
    items_eq _ _ = false

    pub fields_eq : Fields ext → Fields ext → Bool
    fields_eq end end = true
    fields_eq (field k v fs) (field j w gs) = text_eq k j && json_eq v w && fields_eq fs gs
    fields_eq _ _ = false
