-- ===== src/Restore/Programs.antt =====
-- A resume handler as a program of calls of class Restore (liveupdate.hpp), run on the memory and, as the
-- abstract view, on the list of the items that are left.
pub mod Suffix
pub mod Chop
pub mod Readers
pub mod Vectors
pub mod Refine
use live_update.Base.{
  ℕ, zero, suc, ◌*◌, ◌^◌, Bool, true, false, ◌&&◌, List, [], ◌∷◌, ltb, ◌==◌, if◌then◌else◌,
  length as size_of, take, drop,
}
use live_update.Memory.{Ptr, Mem}
use live_update.Machine.{
  Error, Run, ok, throw, aborted, starved, Cmd, and_then, incorrect_type, incorrect_type_size,
  mismatching_length, already_at_end,
}
use live_update.World.{World}
use live_update.Entry.{
  type_end, type_marker, type_integer, type_string, type_buffer, type_vector, type_str_vector,
}
use live_update.Storage.Items.{Item, type_of, id_of, len_of, payload, vector, strings}
use live_update.Restore
use live_update.Restore.Markers.{past_marker, pop_marker_id_spec}

-- The calls that a handler makes, all but `as_tcp_connection` and `data`, each with what it does with the result. `set` changes the service's
-- state, `fail` throws an exception of the service, and `abort` is a failed assertion.
pub data Program {ℓ} (U : Type ℓ) : Type ℓ where
  done abort : Program U
  fail : Error → Program U
  set : U → Program U → Program U
  get_type get_id length : (ℕ → Program U) → Program U
  is_end is_int is_marker : (Bool → Program U) → Program U
  as_int next_id pop_marker : (ℕ → Program U) → Program U
  as_string as_buffer : (List ℕ → Program U) → Program U
  as_type : ℕ → (List ℕ → Program U) → Program U
  as_vector : ℕ → (List (List ℕ) → Program U) → Program U
  as_strings : (List (List ℕ) → Program U) → Program U
  go_next cancel : Program U → Program U
  pop_marker_id : ℕ → Program U → Program U

-- A handler looks at the service's state.
abbrev pub Handler {ℓ} : Type ℓ → Type ℓ
Handler U = U → Program U

module _ {ℓ} {U : Type ℓ} where
  -- On the memory, at the entry at `p`; `fuel` is for the loops of `pop_marker` and `cancel`.
  unfoldable pub run_program : ℕ → Program U → Ptr → Cmd (World U) Ptr
  run_program fuel Program.done p w = (ok p, w)
  run_program fuel Program.abort p w = (aborted, w)
  run_program fuel (Program.fail e) p w = (throw e, w)
  run_program fuel (Program.set u k) p w = run_program fuel k p (record w { user = u })
  run_program fuel (Program.get_type k) p w = run_program fuel (k (Restore.get_type w.mem p)) p w
  run_program fuel (Program.get_id k) p w = run_program fuel (k (Restore.get_id w.mem p)) p w
  run_program fuel (Program.length k) p w = run_program fuel (k (Restore.length w.mem p)) p w
  run_program fuel (Program.is_end k) p w = run_program fuel (k (Restore.is_end w.mem p)) p w
  run_program fuel (Program.is_int k) p w = run_program fuel (k (Restore.is_int w.mem p)) p w
  run_program fuel (Program.is_marker k) p w = run_program fuel (k (Restore.is_marker w.mem p)) p w
  run_program fuel (Program.as_int k) p w =
      and_then (Restore.as_int w.mem p, w) λ v. run_program fuel (k v) p
  run_program fuel (Program.next_id k) p w =
      and_then (Restore.next_id w.mem p, w) λ v. run_program fuel (k v) p
  run_program fuel (Program.pop_marker k) p w =
      and_then (Restore.pop_marker fuel w.mem p, w) λ r. run_program fuel (k r.0) r.1
  run_program fuel (Program.as_string k) p w =
      and_then (Restore.as_string w.mem p, w) λ v. run_program fuel (k v) p
  run_program fuel (Program.as_buffer k) p w =
      and_then (Restore.as_buffer w.mem p, w) λ v. run_program fuel (k v) p
  run_program fuel (Program.as_type size k) p w =
      and_then (Restore.as_type size w.mem p, w) λ v. run_program fuel (k v) p
  run_program fuel (Program.as_vector size k) p w =
      and_then (Restore.as_vector size w.mem p, w) λ v. run_program fuel (k v) p
  run_program fuel (Program.as_strings k) p w =
      and_then (Restore.rebuild_string_vector w.mem p, w) λ v. run_program fuel (k v) p
  run_program fuel (Program.go_next k) p w =
      and_then (Restore.go_next w.mem p, w) (run_program fuel k)
  run_program fuel (Program.cancel k) p w =
      and_then (Restore.cancel fuel w.mem p, w) (run_program fuel k)
  run_program fuel (Program.pop_marker_id id k) p w =
      and_then (Restore.pop_marker_id id fuel w.mem p, w) (run_program fuel k)

-- What the readers give at the first of the items. Behind the last stands the entry of type END, whose
-- id and length are 0. `starved` is where the items do not tell.
abbrev pub type_at : List Item → ℕ
type_at [] = type_end
type_at (i ∷ is) = type_of i

abbrev pub id_at : List Item → ℕ
id_at [] = 0
id_at (i ∷ is) = id_of i

abbrev pub len_at : List Item → ℕ
len_at [] = 0
len_at (i ∷ is) = len_of i

abbrev pub int_at : List Item → Run ℕ
int_at is =
    if type_at is == type_integer then ok (len_at is) else throw (incorrect_type (type_at is))

abbrev pub payload_at : List Item → List ℕ
payload_at [] = []
payload_at (i ∷ is) = payload i

abbrev pub bytes_at : ℕ → List Item → Run (List ℕ)
bytes_at t is = if type_at is == t then ok (payload_at is) else throw (incorrect_type (type_at is))

-- An object of a type of `size` bytes; at an integer the bytes are not determined.
abbrev pub object_at : ℕ → List Item → Run (List ℕ)
object_at size is =
    if type_at is == type_integer
    then starved
    else if size == len_at is
    then ok (payload_at is)
    else throw (mismatching_length (id_at is))

-- `count` pieces of `size` bytes.
abbrev pub chop : ℕ → ℕ → List ℕ → List (List ℕ)
chop zero size bs = []
chop (suc count) size bs = take size bs ∷ chop count size (drop size bs)

abbrev pub vector_of : ℕ → Item → Run (List (List ℕ))
vector_of size (vector id cnt esize bs) =
    if ltb cnt (2 ^ 64) && (ltb esize (2 ^ 64) && cnt * esize == size_of bs)
    then (if size == esize then ok (chop cnt esize bs) else throw (incorrect_type_size size esize))
    else starved
vector_of size i = if type_of i == type_vector then starved else throw (incorrect_type (type_of i))

abbrev pub vector_at : ℕ → List Item → Run (List (List ℕ))
vector_at size [] = throw (incorrect_type type_end)
vector_at size (i ∷ is) = vector_of size i

abbrev pub strings_of : Item → Run (List (List ℕ))
strings_of (strings id ss) = ok ss
strings_of i = if type_of i == type_str_vector then starved else throw (incorrect_type (type_of i))

abbrev pub strings_at : List Item → Run (List (List ℕ))
strings_at [] = throw (incorrect_type type_end)
strings_at (i ∷ is) = strings_of i

abbrev pub next_id_at : List Item → Run ℕ
next_id_at [] = aborted
next_id_at (i ∷ is) = ok (id_at is)

abbrev pub rest_of : List Item → Run (List Item)
rest_of [] = throw already_at_end
rest_of (i ∷ is) = ok is

module _ {ℓ} {U : Type ℓ} where
  -- The same program on the items: those that are left afterwards, and the service's state.
  unfoldable pub run_on_items : Program U → List Item → Cmd U (List Item)
  run_on_items Program.done is u = (ok is, u)
  run_on_items Program.abort is u = (aborted, u)
  run_on_items (Program.fail e) is u = (throw e, u)
  run_on_items (Program.set u' k) is u = run_on_items k is u'
  run_on_items (Program.get_type k) is u = run_on_items (k (type_at is)) is u
  run_on_items (Program.get_id k) is u = run_on_items (k (id_at is)) is u
  run_on_items (Program.length k) is u = run_on_items (k (len_at is)) is u
  run_on_items (Program.is_end k) is u = run_on_items (k (type_at is == type_end)) is u
  run_on_items (Program.is_int k) is u = run_on_items (k (type_at is == type_integer)) is u
  run_on_items (Program.is_marker k) is u = run_on_items (k (type_at is == type_marker)) is u
  run_on_items (Program.as_int k) is u = and_then (int_at is, u) λ v. run_on_items (k v) is
  run_on_items (Program.next_id k) is u = and_then (next_id_at is, u) λ v. run_on_items (k v) is
  run_on_items (Program.pop_marker k) is u =
      let (id, rest) = past_marker is in run_on_items (k id) rest u
  run_on_items (Program.as_string k) is u =
      and_then (bytes_at type_string is, u) λ v. run_on_items (k v) is
  run_on_items (Program.as_buffer k) is u =
      and_then (bytes_at type_buffer is, u) λ v. run_on_items (k v) is
  run_on_items (Program.as_type size k) is u =
      and_then (object_at size is, u) λ v. run_on_items (k v) is
  run_on_items (Program.as_vector size k) is u =
      and_then (vector_at size is, u) λ v. run_on_items (k v) is
  run_on_items (Program.as_strings k) is u = and_then (strings_at is, u) λ v. run_on_items (k v) is
  run_on_items (Program.go_next k) is u = and_then (rest_of is, u) (run_on_items k)
  run_on_items (Program.cancel k) is u = run_on_items k [] u
  run_on_items (Program.pop_marker_id id k) is u =
      and_then (pop_marker_id_spec id is, u) (run_on_items k)
