-- ===== src/Consistency/Register.antt =====
-- pkg/consistency/crdt.go: the last-write-wins register, for any type of values. A timestamp is an
-- `int64`, kept as its bit pattern, and `Set` reads the clock, so its reading is an argument.
pub mod Order
use hermes.Base.{
  ℕ, Bool, true, false, ◌&&◌, ◌||◌, if◌then◌else◌, i64_lt, ◌==◌, GoString, str_eq, str_lt, List, [],
}

pub record LwwRegister (A : Type 0) : Type 0 where
  pub node_id : GoString
  pub value : A
  pub timestamp : ℕ
  pub writer_id : GoString

-- The value starts as the interface's `nil`, and the writer as the empty string.
pub new_lww_register : {A : Type 0} → A → GoString → LwwRegister A
new_lww_register nil id = record { node_id = id; value = nil; timestamp = 0; writer_id = [] }

pub set : {A : Type 0} → ℕ → A → LwwRegister A → LwwRegister A
set now v r = record r { value = v; timestamp = now; writer_id = r.node_id }

pub set_at : {A : Type 0} → A → ℕ → LwwRegister A → LwwRegister A
set_at v ts r =
    if i64_lt r.timestamp ts || ((ts == r.timestamp) && str_lt r.writer_id r.node_id)
    then record r { value = v; timestamp = ts; writer_id = r.node_id }
    else r

pub get_value : {A : Type 0} → LwwRegister A → A × ℕ
get_value r = (r.value, r.timestamp)

pub merge : {A : Type 0} → LwwRegister A → LwwRegister A → LwwRegister A
merge r other =
    if i64_lt r.timestamp other.timestamp
    then record r { value = other.value; timestamp = other.timestamp; writer_id = other.writer_id }
    else if (other.timestamp == r.timestamp) && str_lt r.writer_id other.writer_id
    then record r { value = other.value; writer_id = other.writer_id }
    else r
