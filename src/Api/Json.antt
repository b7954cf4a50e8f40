-- ===== src/Api/Json.antt =====
-- `serde_json::Value`; a float stands for its bits. An object is the list of its entries, whose
-- order stands for nothing; a key that is set again keeps its place.
use z8s.Base.{ℕ, Bool, List, [], ◌∷◌, if◌then◌else◌}
use z8s.Base.Int.{ℤ}
use z8s.Base.Text.{Text, text_eq}
use z8s.Base.Dict.{Dict}

mutual
  pub data Json : Type 0 where
    null : Json
    boolean : Bool → Json
    int : ℤ → Json
    float : ℕ → Json
    str : Text → Json
    arr : Items → Json
    obj : Fields → Json

  pub data Items : Type 0 where
    nil : Items
    cons : Json → Items → Items

  pub data Fields : Type 0 where
    end : Fields
    field : Text → Json → Fields → Fields

abbrev pub items : List Json → Items
items [] = nil
items (v ∷ vs) = cons v (items vs)

-- A map of texts as a `Value::Object`.
abbrev pub text_fields : Dict Text → Fields
text_fields [] = end
text_fields ((k, v) ∷ d) = field k (str v) (text_fields d)

abbrev pub set_field : Text → Json → Fields → Fields
set_field k v end = field k v end
set_field k v (field j w fs) = if text_eq j k then field j v fs else field j w (set_field k v fs)

-- `value[key] = v` on an object.
abbrev pub set : Text → Json → Json → Json
set k v (obj fs) = obj (set_field k v fs)
set k v other = other

abbrev pub empty_obj : Json
empty_obj = obj end

-- `json!({ k: v, … })`.
abbrev pub entries : List (Text × Json) → Fields
entries [] = end
entries ((k, v) ∷ es) = field k v (entries es)
