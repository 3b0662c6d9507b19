-- ===== src/Server.antt =====
-- server.hpp: a server that collects the bytes of each connection, and calls back when it disconnects.
use mathlib.Core.Option
use live_update.Base.{
  ℕ, ◌≡◌, refl, sym, ◌∙◌, List, [], ◌∷◌, ◌++◌, Option, none, some, arith, ◌==◌, if◌then◌else◌,
}

-- What the network tells the server of a connection: it is there, some bytes have come, it has ended.
pub data Event : Type 0 where
  connected : ℕ → Event
  read : ℕ → List ℕ → Event
  disconnected : ℕ → Event

-- The connections with their buffers, and the state that the callback works on.
pub record Server {ℓ} (S : Type ℓ) : Type ℓ where
  pub buffers : List (ℕ × List ℕ)
  pub state : S

-- The buffer that a connection's handlers have captured.
unfoldable pub buffer_of : ℕ → List (ℕ × List ℕ) → Option (List ℕ)
buffer_of conn [] = none
buffer_of conn ((k, buffer) ∷ buffers) = if k == conn then some buffer else buffer_of conn buffers

-- `buffer->insert(buffer->end(), buf.get(), buf.get() + n)`
unfoldable pub insert_at_end : ℕ → List ℕ → List (ℕ × List ℕ) → List (ℕ × List ℕ)
insert_at_end conn buf [] = []
insert_at_end conn buf ((k, buffer) ∷ buffers) =
    if k == conn then (k, buffer ++ buf) ∷ buffers else (k, buffer) ∷ insert_at_end conn buf buffers

-- `delete buffer`
unfoldable pub delete : ℕ → List (ℕ × List ℕ) → List (ℕ × List ℕ)
delete conn [] = []
delete conn ((k, buffer) ∷ buffers) =
    if k == conn then delete conn buffers else (k, buffer) ∷ delete conn buffers

module _ {ℓ} {S : Type ℓ} (callback : List ℕ → S → S) where
  -- The handlers, each at an event of its connection.
  pub data Step : Server S → Event → Server S → Type ℓ where
    on_connect :
        (conn : ℕ) (s : Server S)
        → buffer_of conn s.buffers ≡ none
        → Step s (connected conn) (record s { buffers = (conn, []) ∷ s.buffers })
    on_read :
        (conn : ℕ) (buf : List ℕ) (buffer : List ℕ) (s : Server S)
        → buffer_of conn s.buffers ≡ some buffer
        → Step s (read conn buf) (record s { buffers = insert_at_end conn buf s.buffers })
    on_disconnect :
        (conn : ℕ) (buffer : List ℕ) (s : Server S)
        → buffer_of conn s.buffers ≡ some buffer
        → Step s
            (disconnected conn)
            (record { buffers = delete conn s.buffers; state = callback buffer s.state })

  -- The states in which a server can be that was started in `s0`, with the events so far, the last first.
  pub data Reaches (s0 : S) : List Event → Server S → Type ℓ where
    listening : Reaches s0 [] (record { buffers = []; state = s0 })
    next :
        {es : List Event} {s s' : Server S} {e : Event}
        → Reaches s0 es s
        → Step s e s'
        → Reaches s0 (e ∷ es) s'

-- What has come over a connection that is open, and the blobs of those that have ended, the last first.
abbrev pub received : ℕ → List Event → Option (List ℕ)
received conn [] = none
received conn (connected k ∷ es) = if k == conn then some [] else received conn es
received conn (read k buf ∷ es) =
    if k == conn then Option.map (λ bs. bs ++ buf) (received conn es) else received conn es
received conn (disconnected k ∷ es) = if k == conn then none else received conn es

abbrev with_blob : Option (List ℕ) → List (List ℕ) → List (List ℕ)
with_blob none bss = bss
with_blob (some bs) bss = bs ∷ bss

abbrev pub blobs : List Event → List (List ℕ)
blobs [] = []
blobs (connected k ∷ es) = blobs es
blobs (read k buf ∷ es) = blobs es
blobs (disconnected k ∷ es) = with_blob (received k es) (blobs es)

-- The callback on each of them, in order.
abbrev pub called {ℓ} : {S : Type ℓ} → (List ℕ → S → S) → S → List (List ℕ) → S
called callback s0 [] = s0
called callback s0 (bs ∷ blobs) = callback bs (called callback s0 blobs)

buffer_of-insert_at_end :
    (conn k : ℕ) (buf : List ℕ) (buffers : List (ℕ × List ℕ))
    → buffer_of conn (insert_at_end k buf buffers) ≡ (
        if k == conn
        then Option.map (λ bs. bs ++ buf) (buffer_of conn buffers)
        else buffer_of conn buffers)
unfolding buffer_of insert_at_end
buffer_of-insert_at_end conn k buf [] = ground arith
buffer_of-insert_at_end conn k buf ((j, buffer) ∷ buffers) =
    ground (arith, buffer_of-insert_at_end conn k buf buffers)

buffer_of-delete :
    (conn k : ℕ) (buffers : List (ℕ × List ℕ))
    → buffer_of conn (delete k buffers) ≡ (if k == conn then none else buffer_of conn buffers)
unfolding buffer_of delete
buffer_of-delete conn k [] = ground arith
buffer_of-delete conn k ((j, buffer) ∷ buffers) = ground (arith, buffer_of-delete conn k buffers)

module _ {ℓ} {S : Type ℓ} (callback : List ℕ → S → S) (s0 : S) where
  -- In every state that a server reaches, a connection's buffer is exactly what has come over it since it
  -- connected, and there is none where it has ended or never connected.
  pub Reaches-received :
      (es : List Event) (s : Server S) (conn : ℕ)
      → Reaches callback s0 es s
      → buffer_of conn s.buffers ≡ received conn es
  unfolding buffer_of
  Reaches-received es s conn listening = refl
  Reaches-received es s conn (next {es = es'} r (on_connect k v fresh)) =
      rw (Reaches-received es' v conn r) refl
  Reaches-received es s conn (next {es = es'} r (on_read k buf buffer v is)) =
      buffer_of-insert_at_end conn k buf v.buffers ∙ rw (Reaches-received es' v conn r) refl
  Reaches-received es s conn (next {es = es'} r (on_disconnect k buffer v is)) =
      buffer_of-delete conn k v.buffers ∙ rw (Reaches-received es' v conn r) refl

  -- In every state that a server reaches, the callback has been called with the whole of what came over
  -- each connection that has ended, once each, in the order in which they ended, and with nothing else.
  pub Reaches-called :
      (es : List Event) (s : Server S)
      → Reaches callback s0 es s
      → s.state ≡ called callback s0 (blobs es)
  Reaches-called es s listening = refl
  Reaches-called es s (next {es = es'} r (on_connect k v fresh)) = Reaches-called es' v r
  Reaches-called es s (next {es = es'} r (on_read k buf buffer v is)) = Reaches-called es' v r
  Reaches-called es s (next {es = es'} r (on_disconnect k buffer v is)) =
      let whole : received k es' ≡ some buffer = sym (Reaches-received es' v k r) ∙ is in
      rw (whole, Reaches-called es' v r) refl
