-- ===== src/Net/Server/Sessions.antt =====
-- The session table: who is found in it, and under which index.
use mathlib.Core.Option
use mundus_vivens_game_serve.Common.{
  ℕ, ◌+◌, ◌≤◌, ◌<◌, ◌≡◌, refl, sym, ap, ◌∙◌, ◌≢◌, Option, none, some, List, [], ◌∷◌, length, ◌==◌,
  if◌then◌else◌, arith,
}
use mundus_vivens_game_serve.Common.Dict.{
  nat_eq, lookup, lookup-insert, lookup-erase, lookup-adjust,
}
use mundus_vivens_game_serve.Net.Server.{
  TcpServer, ClientSession, initial_server, push_sent, start, get_session, unregister_session,
  send_to, send_all, broadcast_packet, queue_player_command, drain_player_commands,
  accept_connection, Call, starts, accepts, drains, unregisters, sends, broadcasts, queues, apply,
  apply_all,
}

lookup-send_all :
    (packet_id : ℕ) (payload : List ℕ) (j : ℕ) (m : List (ℕ × ClientSession))
    → lookup j (send_all packet_id payload m)
      ≡ Option.map (push_sent packet_id payload) (lookup j m)
unfolding send_all
lookup-send_all packet_id payload j [] = refl
lookup-send_all packet_id payload j ((i, c) ∷ m) =
    ground (arith, lookup-send_all packet_id payload j m)

-- Every session stands under its own index, and no index in use is handed out again.
pub record IsSound (s : TcpServer) : Type 0 where
  pub keyed :
      (i : ℕ) (c : ClientSession)
      → get_session s i ≡ some c
      → (c.index ≡ i) × (i < s.next_session_id)

pub accept-get_session :
    (s : TcpServer) (j : ℕ)
    → get_session (accept_connection s).1 j ≡ (
        if s.next_session_id == j
        then some (record { index = s.next_session_id; sent = [] })
        else get_session s j)
unfolding accept_connection get_session
accept-get_session s j = lookup-insert s.next_session_id j _ s.sessions

pub unregister-get_session :
    (s : TcpServer) (i j : ℕ)
    → get_session (unregister_session i s) j ≡ (if i == j then none else get_session s j)
unfolding unregister_session get_session
unregister-get_session s i j = lookup-erase i j s.sessions

pub send-get_session :
    (s : TcpServer) (i packet_id : ℕ) (payload : List ℕ) (j : ℕ)
    → get_session (send_to i packet_id payload s) j ≡ (
        if i == j
        then Option.map (push_sent packet_id payload) (get_session s j)
        else get_session s j)
unfolding send_to get_session
send-get_session s i packet_id payload j = lookup-adjust i j _ s.sessions

pub broadcast-get_session :
    (s : TcpServer) (packet_id : ℕ) (payload : List ℕ) (j : ℕ)
    → get_session (broadcast_packet packet_id payload s) j
      ≡ Option.map (push_sent packet_id payload) (get_session s j)
unfolding broadcast_packet get_session
broadcast-get_session s packet_id payload j = lookup-send_all packet_id payload j s.sessions

accept-IsSound :
    (s : TcpServer)
    → s.next_session_id + 1 < 4294967296
    → IsSound s
    → IsSound (accept_connection s).1
unfolding accept_connection
accept-IsSound s h v = record {
  keyed = λ i c e. ground (arith, accept-get_session s i, v.keyed i c);
}

unregister-IsSound : (s : TcpServer) (i : ℕ) → IsSound s → IsSound (unregister_session i s)
unfolding unregister_session
unregister-IsSound s i v = record {
  keyed = λ j c e. ground (arith, unregister-get_session s i j, v.keyed j c);
}

push_sent-keyed :
    (n i packet_id : ℕ) (payload : List ℕ) (o : Option ClientSession)
    → ((c : ClientSession) → o ≡ some c → (c.index ≡ i) × (i < n))
    → (c : ClientSession) → Option.map (push_sent packet_id payload) o ≡ some c
    → (c.index ≡ i) × (i < n)
push_sent-keyed n i packet_id payload none h c e = cc
push_sent-keyed n i packet_id payload (some a) h c e = ground (arith, h a refl)

send-IsSound :
    (s : TcpServer) (i packet_id : ℕ) (payload : List ℕ)
    → IsSound s
    → IsSound (send_to i packet_id payload s)
unfolding send_to
send-IsSound s i packet_id payload v = record {
  keyed = λ j c e. ground (
    arith,
    send-get_session s i packet_id payload j,
    v.keyed j c,
    push_sent-keyed s.next_session_id j packet_id payload (get_session s j) (v.keyed j) c,
  );
}

broadcast-IsSound :
    (s : TcpServer) (packet_id : ℕ) (payload : List ℕ)
    → IsSound s
    → IsSound (broadcast_packet packet_id payload s)
unfolding broadcast_packet
broadcast-IsSound s packet_id payload v = record {
  keyed = λ j c e.
      push_sent-keyed s.next_session_id j packet_id payload (get_session s j) (v.keyed j) c
        (sym (broadcast-get_session s packet_id payload j) ∙ e);
}

-- The calls that leave the table and the counter alone.
other-IsSound :
    (s t : TcpServer)
    → t.sessions ≡ s.sessions
    → t.next_session_id ≡ s.next_session_id
    → IsSound s
    → IsSound t
unfolding get_session
other-IsSound s t e n v = record {
  keyed =
      λ i c found. let k = v.keyed i c (ap (lookup i) (sym e) ∙ found) in (k.0, omega (arith, k.1));
}

pub apply-IsSound :
    (s : TcpServer) (c : Call)
    → s.next_session_id + 1 < 4294967296
    → IsSound s
    → IsSound (apply s c) × ((apply s c).next_session_id ≤ s.next_session_id + 1)
unfolding apply start drain_player_commands queue_player_command accept_connection
    unregister_session send_to broadcast_packet
apply-IsSound s starts h v = (other-IsSound s _ (ground arith) (ground arith) v, ground arith)
apply-IsSound s accepts h v = (accept-IsSound s h v, ground arith)
apply-IsSound s drains h v = (other-IsSound s _ refl refl v, omega arith)
apply-IsSound s (unregisters i) h v = (unregister-IsSound s i v, omega arith)
apply-IsSound s (sends i packet_id payload) h v =
    (send-IsSound s i packet_id payload v, omega arith)
apply-IsSound s (broadcasts packet_id payload) h v =
    (broadcast-IsSound s packet_id payload v, omega arith)
apply-IsSound s (queues cmd) h v = (other-IsSound s _ refl refl v, omega arith)

pub apply_all-IsSound :
    (s : TcpServer) (cs : List Call)
    → s.next_session_id + length cs < 4294967296
    → IsSound s
    → IsSound (apply_all s cs) × ((apply_all s cs).next_session_id ≤ s.next_session_id + length cs)
unfolding apply_all
apply_all-IsSound s [] h v = (v, omega arith)
apply_all-IsSound s (c ∷ cs) h v =
    let (v', n) = apply-IsSound s c (omega arith) v in
    let (v'', n') = apply_all-IsSound (apply s c) cs (omega arith) v' in (v'', omega arith)

pub initial_server-IsSound : IsSound initial_server
unfolding initial_server get_session
initial_server-IsSound = record { keyed = λ i c e. cc }

unused_index :
    (n i : ℕ) (o : Option ClientSession)
    → ((c : ClientSession) → o ≡ some c → (c.index ≡ i) × (i < n))
    → n ≤ i
    → o ≡ none
unused_index n i none k h = refl
unused_index n i (some c) k h = absurd (omega (arith, k c refl))

accept_new :
    (s : TcpServer)
    → IsSound s
    → s.next_session_id + 1 < 4294967296
    → let (i, t) = accept_connection s in
      (get_session s i ≡ none)
      × (get_session t i ≡ some (record { index = i; sent = [] }))
      × ((j : ℕ) → j ≢ i → get_session t j ≡ get_session s j)
      × ((j : ℕ) (c : ClientSession) → get_session t j ≡ some c → c.index ≡ j)
unfolding accept_connection
accept_new s v h = (
  unused_index s.next_session_id s.next_session_id _ (v.keyed s.next_session_id) (omega arith),
  ground (arith, accept-get_session s s.next_session_id),
  λ j ne. ground (arith, accept-get_session s j),
  λ j c e. ((accept-IsSound s h v).keyed j c e).0,
)

-- After any calls on a new server, fewer than 2^32 - 2 of them, an accepted connection gets an
-- index that no session in the table has, is found under it with nothing sent yet, and every other
-- session is found as before, under its own index.
pub accept_fresh :
    (cs : List Call)
    → length cs + 2 < 4294967296
    → let s = apply_all initial_server cs in
      let (i, t) = accept_connection s in
      (get_session s i ≡ none)
      × (get_session t i ≡ some (record { index = i; sent = [] }))
      × ((j : ℕ) → j ≢ i → get_session t j ≡ get_session s j)
      × ((j : ℕ) (c : ClientSession) → get_session t j ≡ some c → c.index ≡ j)
unfolding initial_server
accept_fresh cs h =
    let (sound, n) = apply_all-IsSound initial_server cs (omega arith) initial_server-IsSound in
    accept_new (apply_all initial_server cs) sound (omega arith)
