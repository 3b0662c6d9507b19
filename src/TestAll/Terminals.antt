-- ===== src/TestAll/Terminals.antt =====
-- The terminals that test_all.cpp stores, and the loop that restores them.
use live_update.Base.{
  ℕ, suc, zero, ◌+◌, ◌<◌, ◌≡◌, refl, sym, ◌∙◌, ap, List, [], ◌∷◌, ◌++◌, append-nil, append_assoc,
  arith, length,
}
use live_update.Memory.{Ptr, Mem}
use live_update.Machine.{ok}
use live_update.World.{World}
use live_update.Entry
use live_update.Entry.{Crc, type_tcp}
use live_update.Storage.Items.{Item, body}
use live_update.Restore.Walk.{IsRest, go_next-cons}
use live_update.Resume.{ResumeFunc, ResumeFuncs, dispatch, resume_loop}
use live_update.Resume.Loop.{Resumes, loop_nil}
use live_update.Resume.Rounds.{round-stayed}
use live_update.Tcp.{WriteQueue}
use live_update.Tcp.Connections.{Layout, Connection, as_tcp_connection}
use live_update.Tcp.Connections.Sleep.{deserialize_connection-ok}
use live_update.Tcp.Connections.Stored.{
  IsStorable, serialize_connection-Writes, connection_bytes-restored,
}
use live_update.Update.Calls.{item_of, items_of, AllReady}
use live_update.TestAll.{
  Service, open_terminal, open_terminals, restore_term, setup_terminal_connection,
}

-- The terminals fit where their entries will stand.
abbrev pub AllStorable : Layout → Ptr → Mem → List Connection → Type 0
AllStorable l pos m [] = Unit
AllStorable l pos m (conn ∷ conns) =
    ((now : ℕ) × (prev : ℕ) × IsStorable l conn now prev (pos + 8) m)
    × AllStorable l (pos + (8 + body (item_of (open_terminal l pos m conn)))) m conns

pub terminals-AllReady :
    (l : Layout) (m : Mem) (lo hi pos : Ptr) (conns : List Connection)
    → AllStorable l pos m conns
    → AllReady m lo hi pos (open_terminals l pos m conns)
terminals-AllReady l m lo hi pos [] s = tt
terminals-AllReady l m lo hi pos (conn ∷ conns) ((now, prev, s), rest) = (
  λ m1 same. serialize_connection-Writes m1 s same,
  terminals-AllReady l m lo hi (pos + (8 + body (item_of (open_terminal l pos m conn)))) conns rest,
)

pub terminals-count :
    (l : Layout) (m : Mem) (pos : Ptr) (conns : List Connection)
    → length (items_of (open_terminals l pos m conns)) ≡ length conns
terminals-count l m pos [] = refl
terminals-count l m pos (conn ∷ conns) =
    ap suc (terminals-count l m (pos + (8 + body (item_of (open_terminal l pos m conn)))) conns)

module _ (l : Layout) (m : Mem) (sendq_size : WriteQueue → ℕ) (stack : ℕ) where
  -- `restore_term` at the entry of a terminal.
  pub restore_term-run :
      (pos : Ptr) (conn : Connection) (now prev : ℕ) (is : List Item) (v : World Service)
      → IsStorable l conn now prev (pos + 8) m
      → IsRest v.mem pos (item_of (open_terminal l pos m conn) ∷ is)
      → (stacks : List ℕ) × (restore_term l 1 sendq_size stack pos v ≡ (
        ok pos,
        record v { slumbering = stacks; user = setup_terminal_connection conn v.user },
      ))
  unfolding restore_term as_tcp_connection
  restore_term-run pos conn now prev is v s r =
      let fields = connection_bytes-restored v.mem s r.chain.0.rest in
      let (stacks, restored) =
        deserialize_connection-ok l 1 sendq_size stack (pos + 8) v conn fields in
      (stacks, rw restored refl)

  -- The loop over the terminals, with functions that give their entries to `restore_term`.
  pub terminals-Resumes :
      (funcs : ResumeFuncs Service) (func : ResumeFunc Service) (lo hi : Ptr)
      → ((p : Ptr) (v : World Service)
          → Entry.id v.mem p ≡ 666
          → dispatch funcs func p v ≡ restore_term l 1 sendq_size stack p v)
      → (conns : List Connection) (k : ℕ) (pos : Ptr) (v : World Service)
      → AllStorable l pos m conns
      → IsRest v.mem pos (items_of (open_terminals l pos m conns))
      → length conns < k
      → Resumes lo hi v
          (record v.user { saveme = v.user.saveme ++ conns })
          (resume_loop k funcs func pos v)
  terminals-Resumes funcs func lo hi goes conns zero pos v s r h = absurd (omega arith)
  terminals-Resumes funcs func lo hi goes [] (suc k) pos v s r h = record {
    world = v;
    returns = loop_nil 0 0 funcs func k pos v r;
    user = ap (λ conns. record v.user { saveme = conns }) (sym (append-nil v.user.saveme));
    kept = λ x a b. refl;
  }
  terminals-Resumes funcs func lo hi goes (conn ∷ conns) (suc k) pos v ((now, prev, s), rest) r h =
      let i = item_of (open_terminal l pos m conn) in
      let next = pos + (8 + body i) in
      let is = items_of (open_terminals l next m conns) in
      let (stacks, run) = restore_term-run pos conn now prev is v s r in
      let v1 = record v { slumbering = stacks; user = setup_terminal_connection conn v.user } in
      let ih =
        terminals-Resumes funcs func lo hi goes conns k next v1 rest (go_next-cons r).1
          (omega arith) in
      record {
        world = ih.world;
        returns =
            round-stayed funcs func k pos i is v v1 r r (goes pos v r.chain.0.head.has_id ∙ run)
            ∙ ih.returns;
        user =
            ih.user
            ∙ ap (λ conns. record v.user { saveme = conns })
                (append_assoc v.user.saveme (conn ∷ []) conns);
        kept = ih.kept;
      }
