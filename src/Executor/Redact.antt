-- ===== src/Executor/Redact.antt =====
-- `_json_safe` of executor.py. `sensitive` stands for the search of `_SENSITIVE_KEY` in a key.
use coding_agent_neo.Prelude.{
  String, ◌≡◌, refl, Bool, true, false, ◌&&◌, ◌++◌, arith, if◌then◌else◌, chars, text_eq,
  text_eq_refl,
}
use coding_agent_neo.Json.{
  finite, nan, infinite, real, foreign_value, Value, Items, Fields, null, bool, num, str, arr, obj,
  nil, cons, end, field,
}

module _ (sensitive : String → Bool) where
  unfoldable mutual
    pub json_safe : Value → Value
    json_safe (arr items) = arr (json_safe_items items)
    json_safe (obj fields) = obj (json_safe_fields fields)
    json_safe (real nan) = null
    json_safe (real (infinite negative)) = null
    json_safe (foreign_value type_name) = str (chars "<" ++ type_name ++ chars ">")
    json_safe v = v

    pub json_safe_items : Items → Items
    json_safe_items nil = nil
    json_safe_items (cons v vs) = cons (json_safe v) (json_safe_items vs)

    pub json_safe_fields : Fields → Fields
    json_safe_fields end = end
    json_safe_fields (field k v fs) =
        field k (if sensitive k then str (chars "<redacted>") else json_safe v)
          (json_safe_fields fs)

  -- No sensitive key, at any depth, still has the value it came with.
  unfoldable mutual
    pub is_redacted : Value → Bool
    is_redacted (arr items) = is_redacted_items items
    is_redacted (obj fields) = is_redacted_fields fields
    is_redacted _ = true

    pub is_redacted_items : Items → Bool
    is_redacted_items nil = true
    is_redacted_items (cons v vs) = is_redacted v && is_redacted_items vs

    pub is_redacted_fields : Fields → Bool
    is_redacted_fields end = true
    is_redacted_fields (field k v fs) =
        (if sensitive k then is_placeholder v else is_redacted v) && is_redacted_fields fs

    pub is_placeholder : Value → Bool
    is_placeholder (str t) = text_eq t (chars "<redacted>")
    is_placeholder _ = false

  redacted_either :
      (b : Bool) (v : Value) (rest : Bool)
      → is_redacted v ≡ true
      → rest ≡ true
      → (let shown = if b then str (chars "<redacted>") else v in
          (if b then is_placeholder shown else is_redacted shown) && rest)
        ≡ true
  unfolding is_redacted
  redacted_either true v rest h r = ground (arith, text_eq_refl (chars "<redacted>"), r)
  redacted_either false v rest h r = ground arith

  mutual
    unfolding json_safe is_redacted

    value_lem : (v : Value) → is_redacted (json_safe v) ≡ true
    value_lem null = refl
    value_lem (bool b) = refl
    value_lem (num n) = refl
    value_lem (real (finite t)) = refl
    value_lem (real nan) = refl
    value_lem (real (infinite negative)) = refl
    value_lem (foreign_value type_name) = refl
    value_lem (str t) = refl
    value_lem (arr items) = items_lem items
    value_lem (obj fields) = fields_lem fields

    items_lem : (vs : Items) → is_redacted_items (json_safe_items vs) ≡ true
    items_lem nil = refl
    items_lem (cons v vs) = ground (arith, value_lem v, items_lem vs)

    fields_lem : (fs : Fields) → is_redacted_fields (json_safe_fields fs) ≡ true
    fields_lem end = refl
    fields_lem (field k v fs) =
        redacted_either (sensitive k) (json_safe v) _ (value_lem v) (fields_lem fs)

  -- The rendering leaves nothing under a sensitive key but the placeholder, in mappings and lists
  -- of any depth.
  pub json_safe-is_redacted : (v : Value) → is_redacted (json_safe v) ≡ true
  json_safe-is_redacted v = value_lem v
