-- ===== src/Value.antt =====
-- The values of JavaScript that a message can hold. Numbers are whole, or not finite; an object has
-- its own properties in the order in which they were set.
use xpi_p2p_ts.Text.{Text, Text_discrete}
use xpi_p2p_ts.Text.Decimal.{decimal}
use xpi_p2p_ts.Base.{ℕ, suc, Bool, true, false, Option, none, some, List, [], ◌∷◌, ite}

pub data Number : Type 0 where
  whole : ℕ → Number
  -- The number -(n + 1).
  below_zero : ℕ → Number
  not_finite : Number

mutual
  pub data Value : Type 0 where
    undefined : Value
    null : Value
    boolean : Bool → Value
    number : Number → Value
    text : Text → Value
    array : Items → Value
    object : Fields → Value

  pub data Items : Type 0 where
    nil : Items
    cons : Value → Items → Items

  pub data Fields : Type 0 where
    end : Fields
    field : Text → Value → Fields → Fields

abbrev pub items : Items → List Value
items nil = []
items (cons v vs) = v ∷ items vs

unfoldable pub property : Text → Fields → Option Value
property k end = none
property k (field j v fs) = ite (Text_discrete j k) (some v) (property k fs)

abbrev pub names : Fields → List Text
names end = []
names (field k v fs) = k ∷ names fs

index_names : ℕ → Items → List Text
index_names i nil = []
index_names i (cons v vs) = decimal i ∷ index_names (suc i) vs

-- `Object.keys(v)`, where `v` is an object or an array.
unfoldable pub own_keys : Value → List Text
unfolding index_names
own_keys (object fs) = names fs
own_keys (array vs) = index_names 0 vs
own_keys _ = []

unfoldable pub or_undefined : Option Value → Value
or_undefined none = undefined
or_undefined (some v) = v

-- `v[k]`, where `k` is a name that `Object.keys(v)` lists, and no index of an array.
unfoldable pub read : Text → Value → Value
unfolding property or_undefined
read k (object fs) = or_undefined (property k fs)
read k _ = undefined

-- `v && typeof v === 'object'`
abbrev pub is_objectlike : Value → Bool
is_objectlike (object _) = true
is_objectlike (array _) = true
is_objectlike _ = false

-- `typeof v === 'string'`, with the text.
abbrev pub as_text : Value → Option Text
as_text (text t) = some t
as_text _ = none
