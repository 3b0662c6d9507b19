-- ===== src/Update.antt =====
-- update.cpp: class Storage, which a service's callback stores through, and `store`, which fills an
-- area by such a callback. (`begin` is in Update/Begin, the ELF headers in Update/Elf.)
pub mod Elf
pub mod Begin
pub mod Calls
pub mod Templates
pub mod Storing
pub mod RoundTrip
pub mod Connections
use live_update.Base.{ℕ, ◌%◌, ◌^◌, List, Option, none, some, if◌then◌else◌}
use live_update.Memory.{Ptr, Mem}
use live_update.Machine.{Run, ok, throw, sanity_check_failed, Cmd, and_then}
use live_update.World.{World, Buffer}
use live_update.Entry.{Crc, type_tcp}
use live_update.Storage
use live_update.Storage.{ConstructFunc, validate, total_bytes, finalize}

-- A `storage_func`: it stores through the header at the address that its Storage refers to. The buffer
-- is the update blob, or null.
abbrev pub StorageFunc {ℓ} : Type ℓ → Type ℓ
StorageFunc U = Ptr → Option Buffer → Cmd (World U) (Unit {0})

module _ {ℓ} {U : Type ℓ} where
  -- A function that works on the memory, and one that may throw.
  abbrev pub writing : (Mem → Mem) → Cmd (World U) (Unit {0})
  writing f w = (ok tt, record w { mem = f w.mem })

  abbrev pub lift {κ} : {A : Type κ} → Cmd Mem A → Cmd (World U) A
  lift f w = let (r, m) = f w.mem in (r, record w { mem = m })

  abbrev pub lift_unit {κ} : {A : Type κ} → Cmd Mem A → Cmd (World U) (Unit {0})
  lift_unit f w = and_then (lift f w) λ _ w'. (ok tt, w')

  unfoldable pub put_marker : Ptr → ℕ → Cmd (World U) (Unit {0})
  put_marker hdr id = writing (Storage.add_marker hdr id)

  unfoldable pub add_int : Ptr → ℕ → ℕ → Cmd (World U) (Unit {0})
  add_int hdr id value = writing (Storage.add_int hdr id value)

  unfoldable pub add_string : Ptr → ℕ → List ℕ → Cmd (World U) (Unit {0})
  add_string hdr id str = writing (Storage.add_string hdr id str)

  -- `add_buffer(uid, const buffer_t&)`; the size is cut to an `int`.
  unfoldable pub add_buffer : Ptr → ℕ → Buffer → Cmd (World U) (Unit {0})
  add_buffer hdr id blob = writing (Storage.add_buffer hdr id blob.at (blob.size % 2 ^ 32))

  -- `add_buffer(uid, const void*, size_t)`, which `add<T>` calls with the object's address and size.
  unfoldable pub add_bytes : Ptr → ℕ → Ptr → ℕ → Cmd (World U) (Unit {0})
  add_bytes hdr id buf len = writing (Storage.add_buffer hdr id buf (len % 2 ^ 32))

  unfoldable pub add_vector : Ptr → ℕ → Ptr → ℕ → ℕ → Cmd (World U) (Unit {0})
  add_vector hdr id buf count esize = writing (Storage.add_vector hdr id buf count esize)

  unfoldable pub add_string_vector : Ptr → ℕ → List (List ℕ) → Cmd (World U) (Unit {0})
  add_string_vector hdr id vec = lift_unit (Storage.add_string_vector hdr id vec)

  -- `serialize_to` of the connection, which writes at an address and returns the number of bytes, is a
  -- parameter here.
  unfoldable pub add_connection : Ptr → ℕ → ConstructFunc → Cmd (World U) (Unit {0})
  add_connection hdr id serialize_to =
      lift_unit (Storage.add_struct_func hdr type_tcp id serialize_to)

  unfoldable pub stored_data_length : Crc → Ptr → Cmd (World U) ℕ
  stored_data_length crc location w =
      if w.sanity_checks
      then (let (b, m) = validate crc location w.mem in
          let w1 = record w { mem = m } in
          if b then (ok (total_bytes m location), w1) else (throw sanity_check_failed, w1))
      else (ok (total_bytes w.mem location), w)

  -- `if (func != nullptr) { Storage wrapper {*storage}; func(wrapper, blob); }`
  unfoldable pub call_back : Option (StorageFunc U) → StorageFunc U
  call_back none location blob w = (ok tt, w)
  call_back (some func) location blob w = func location blob w

  unfoldable pub update_store_data :
      Crc → Ptr → Option (StorageFunc U) → Option Buffer → Cmd (World U) ℕ
  update_store_data crc location func blob w =
      let w1 = record w { mem = Storage.construct location w.mem } in
      and_then (call_back func location blob w1) λ _ w2.
        and_then (lift (finalize crc w2.heap_max location) w2)
          λ _ w3. stored_data_length crc location w3

  unfoldable pub store : Crc → Ptr → Option (StorageFunc U) → Cmd (World U) ℕ
  store crc location func w = update_store_data crc location func none w
