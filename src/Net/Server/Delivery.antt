-- ===== src/Net/Server/Delivery.antt =====
-- What a session's `Send` is given, over a sequence of calls on the server.
use mundus_vivens_game_serve.Common.{
  ℕ, ◌+◌, ◌<◌, ◌≡◌, ◌≢◌, refl, Bool, true, false, Bool-cases, inl, inr, sym, ap, ◌∙◌, Option, some,
  List, [], ◌∷◌, ◌++◌, length, append-nil, append_assoc, ◌==◌, if◌then◌else◌, arith,
}
use mathlib.Core.Option
use mundus_vivens_game_serve.Net.Server.{
  TcpServer, ClientSession, push_sent, start, get_session, drain_player_commands,
  queue_player_command, initial_server, apply, apply_all, Call, starts, accepts, drains,
  unregisters, sends, broadcasts, queues,
}
use mundus_vivens_game_serve.Net.Server.Sessions.{
  IsSound, initial_server-IsSound, apply_all-IsSound, apply-IsSound, accept-get_session,
  unregister-get_session, send-get_session, broadcast-get_session,
}

-- The packets that a sequence of calls addresses to the index, alone or with all the others.
abbrev pub addressed : ℕ → List Call → List (ℕ × List ℕ)
addressed i [] = []
addressed i (sends j packet_id payload ∷ cs) =
    if j == i then (packet_id, payload) ∷ addressed i cs else addressed i cs
addressed i (broadcasts packet_id payload ∷ cs) = (packet_id, payload) ∷ addressed i cs
addressed i (_ ∷ cs) = addressed i cs

-- The index is not taken off the table by the calls.
abbrev pub Stays : ℕ → List Call → Type 0
Stays i [] = Unit
Stays i (unregisters j ∷ cs) = (j ≢ i) × Stays i cs
Stays i (_ ∷ cs) = Stays i cs

abbrev with_sent : ℕ → List (ℕ × List ℕ) → Option ClientSession
with_sent i packets = some (record { index = i; sent = packets })

if_true : {A : Type 0} → (b : Bool) (x y : A) → b ≡ true → (if b then x else y) ≡ x
if_true true x y e = refl
if_true false x y e = cc

if_false : {A : Type 0} → (b : Bool) (x y : A) → b ≡ false → (if b then x else y) ≡ y
if_false true x y e = cc
if_false false x y e = refl

other_key : {A : Type 0} → (i j : ℕ) (x y : A) → i ≢ j → (if i == j then x else y) ≡ y
other_key i j x y ne = ground arith

-- A packet more, and the ones behind it.
behind :
    (i : ℕ) (sent more : List (ℕ × List ℕ)) (p : ℕ × List ℕ)
    → with_sent i ((sent ++ p ∷ []) ++ more) ≡ with_sent i (sent ++ p ∷ more)
behind i sent more p = ap (with_sent i) (append_assoc sent (p ∷ []) more)

keeps_start : (s : TcpServer) (i : ℕ) → get_session (start s) i ≡ get_session s i
unfolding start get_session
keeps_start s i = ground arith

unused :
    (s : TcpServer) (i : ℕ) (c : ClientSession)
    → IsSound s
    → get_session s i ≡ some c
    → s.next_session_id ≢ i
unused s i c v found e = omega (arith, v.keyed i c found, e)

sent_on :
    (s : TcpServer) (i : ℕ) (sent : List (ℕ × List ℕ)) (cs : List Call)
    → IsSound s
    → s.next_session_id + length cs < 4294967296
    → get_session s i ≡ with_sent i sent
    → Stays i cs
    → get_session (apply_all s cs) i ≡ with_sent i (sent ++ addressed i cs)
unfolding apply_all apply get_session drain_player_commands queue_player_command
sent_on s i sent [] v h found stays = found ∙ ap (with_sent i) (sym (append-nil sent))
sent_on s i sent (starts ∷ cs) v h found stays =
    let (v', n) = apply-IsSound s starts (omega arith) v in
    sent_on (start s) i sent cs v' (omega arith) (keeps_start s i ∙ found) stays
sent_on s i sent (accepts ∷ cs) v h found stays =
    let (v', n) = apply-IsSound s accepts (omega arith) v in
    sent_on (apply s accepts) i sent cs v' (omega arith)
      (accept-get_session s i ∙ other_key _ _ _ _ (unused s i _ v found) ∙ found) stays
sent_on s i sent (drains ∷ cs) v h found stays =
    let (v', n) = apply-IsSound s drains (omega arith) v in
    sent_on (apply s drains) i sent cs v' (omega arith) found stays
sent_on s i sent (unregisters j ∷ cs) v h found (ne, stays) =
    let (v', n) = apply-IsSound s (unregisters j) (omega arith) v in
    sent_on (apply s (unregisters j)) i sent cs v' (omega arith)
      (unregister-get_session s j i ∙ other_key _ _ _ _ ne ∙ found) stays
sent_on s i sent (sends j packet_id payload ∷ cs) v h found stays =
    let (v', n) = apply-IsSound s (sends j packet_id payload) (omega arith) v in
    let t = apply s (sends j packet_id payload) in
    let looked = send-get_session s j packet_id payload i in
    elim (Bool-cases (j == i)) [
      | inl same ↦
          let given : get_session t i ≡ with_sent i (sent ++ (packet_id, payload) ∷ []) =
            looked ∙ if_true _ _ _ same ∙ ap (Option.map (push_sent packet_id payload)) found in
          sent_on t i (sent ++ (packet_id, payload) ∷ []) cs v' (omega arith) given stays
          ∙ behind i sent (addressed i cs) (packet_id, payload)
          ∙ ap (λ more. with_sent i (sent ++ more)) (sym (if_true _ _ _ same))
      | inr other ↦
          sent_on t i sent cs v' (omega arith) (looked ∙ if_false _ _ _ other ∙ found) stays
          ∙ ap (λ more. with_sent i (sent ++ more)) (sym (if_false _ _ _ other))
    ]
sent_on s i sent (broadcasts packet_id payload ∷ cs) v h found stays =
    let (v', n) = apply-IsSound s (broadcasts packet_id payload) (omega arith) v in
    sent_on (apply s (broadcasts packet_id payload)) i (sent ++ (packet_id, payload) ∷ []) cs v'
      (omega arith)
      (broadcast-get_session s packet_id payload i
        ∙ ap (Option.map (push_sent packet_id payload)) found)
      stays
    ∙ behind i sent (addressed i cs) (packet_id, payload)
sent_on s i sent (queues cmd ∷ cs) v h found stays =
    let (v', n) = apply-IsSound s (queues cmd) (omega arith) v in
    sent_on (apply s (queues cmd)) i sent cs v' (omega arith) found stays

-- From any history of calls on a new server on, as long as fewer than 2^32 - 1 calls are made: a
-- session that no later call takes off the table has been given the packets that were sent to its
-- index and the broadcast ones, each once and in the order of the calls, behind those of before.
pub apply_all-delivers :
    (before cs : List Call) (i : ℕ) (c : ClientSession)
    → length before + length cs + 1 < 4294967296
    → get_session (apply_all initial_server before) i ≡ some c
    → Stays i cs
    → get_session (apply_all (apply_all initial_server before) cs) i
      ≡ some (record { index = i; sent = c.sent ++ addressed i cs })
unfolding initial_server
apply_all-delivers before cs i c h found stays =
    let (sound, n) = apply_all-IsSound initial_server before (omega arith) initial_server-IsSound in
    let s = apply_all initial_server before in
    let own = (sound.keyed i c found).0 in
    sent_on s i c.sent cs sound (omega arith)
      (found ∙ ap (λ k. some (record { index = k; sent = c.sent })) own) stays
