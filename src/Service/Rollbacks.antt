-- ===== src/Service/Rollbacks.antt =====
-- What the service's rollback server makes of a blob, with the library's functions.
use live_update.Base.{
  ℕ, ◌<◌, ◌≡◌, ◌≢◌, refl, ◌⊎◌, inl, inr, true, List, none, some, length, ne→==, lt→ltb,
}
use live_update.Memory.{Ptr, store, load, offset}
use live_update.Memory.Laws.{load-store_self}
use live_update.Machine.{Error, Run, ok, throw, aborted, starved}
use live_update.World.{World, Buffer, Os}
use live_update.Entry.{Crc}
use live_update.Hotswap.{Jump}
use live_update.Update.Begin.{begin}
use live_update.Rollback.{
  rollback_now, set_rollback_blob, has_rollback_blob, try_rollback, copy_blob, or_reboot,
}
use live_update.Rollback.Outcome.{Ends, begin-Ends}
use live_update.LiveUpdate.{LiveUpdate}
use live_update.LiveUpdate.Instance.{live_updates}
use live_update.Service.{Status, replaced, rebooting, fate, on_rollback_blob}
use live_update.Service.Handlers.{copy_buffer_lem}

module _ {ℓ} {U : Type ℓ} where
  -- The machine is in the hands of the new kernel that `begin` has started, or is rebooted where `begin` has
  -- thrown; the world is what `begin` has left.
  pub record RolledBack (begun : Run Jump × World U) (r : Status × World U) : Type ℓ where
    pub world : World U
    pub outcome :
        ((jump : Jump) × (begun ≡ (ok jump, world)) × (r ≡ (replaced jump, world)))
        ⊎ ((e : Error) × (begun ≡ (throw e, world)) × (r ≡ (rebooting, world)))

  fate-or_reboot :
      (os : Os) (liu : LiveUpdate U) (begun : Run Jump × World U)
      → Ends begun.0
      → RolledBack begun (fate os liu (or_reboot begun))
  unfolding fate or_reboot
  fate-or_reboot os liu (ok jump, w) h = record { world = w; outcome = inl (jump, refl, refl) }
  fate-or_reboot os liu (throw e, w) h = record { world = w; outcome = inr (e, refl, refl) }
  fate-or_reboot os liu (aborted, w) h = absurd (elim h [ inl (a, e) ↦ cc | inr (a, e) ↦ cc ])
  fate-or_reboot os liu (starved, w) h = absurd (elim h [ inl (a, e) ↦ cc | inr (a, e) ↦ cc ])

  copy_blob_lem :
      (os : Os) (at end : Ptr) (w : World U)
      → os.allocate w.rollback_len w.heap_end ≡ some (at, end)
      → copy_blob os w ≡ (
        ok (record { at = at; size = w.rollback_len }),
        record w {
          mem = store w.mem at (load w.mem w.rollback_data w.rollback_len);
          heap_end = end;
        },
      )
  unfolding copy_blob
  copy_blob_lem os at end w allocated = rw (copy_blob, allocated) refl

  -- A blob of more than 164 bytes that comes to the rollback server, with the library's functions and
  -- where its copy can be allocated at an address other than 0, and one more for `begin`, becomes the
  -- rollback blob, and `begin` is called on a copy of it, without a callback, 0x4000 bytes behind the
  -- heap. The new kernel that `begin` starts takes the machine over; where `begin` throws, the machine is
  -- rebooted; the service does not run on.
  pub on_rollback_blob-RolledBack :
      (os : Os) (crc : Crc) (rounds : ℕ) (blob : List ℕ) (at end vec_at vec_end : Ptr) (w : World U)
      → 164 < length blob
      → os.allocate (length blob) w.heap_end ≡ some (at, end)
      → at ≢ 0
      → os.allocate (length blob) end ≡ some (vec_at, vec_end)
      → let vec : Buffer = record { at = vec_at; size = length blob } in
        let ready = record w {
          mem = store (store w.mem at blob) vec_at blob;
          heap_end = vec_end;
          rollback_data = at;
          rollback_len = length blob;
          on_panic = true;
        } in
        RolledBack
          (begin os crc (offset vec_end 0x4000) vec none ready)
          (on_rollback_blob os (live_updates os crc rounds) blob w)
  unfolding on_rollback_blob rollback_now set_rollback_blob has_rollback_blob try_rollback
  on_rollback_blob-RolledBack os crc rounds blob at end vec_at vec_end w long allocated ne
        allocated' =
      let vec : Buffer = record { at = vec_at; size = length blob } in
      let ready = record w {
        mem = store (store w.mem at blob) vec_at blob;
        heap_end = vec_end;
        rollback_data = at;
        rollback_len = length blob;
        on_panic = true;
      } in
      let copied = record w {
        mem = store w.mem at blob;
        heap_end = end;
        rollback_data = at;
        rollback_len = length blob;
        on_panic = true;
      } in
      rw
        (
          copy_buffer_lem os blob at end w allocated,
          ne→== at 0 ne,
          lt→ltb 164 (length blob) long,
          copy_blob_lem os vec_at vec_end copied allocated',
          load-store_self w.mem at blob,
        )
        (fate-or_reboot os (live_updates os crc rounds)
          (begin os crc (offset vec_end 0x4000) vec none ready)
          (begin-Ends crc os (offset vec_end 0x4000) vec ready))
