-- ===== src/IocpServer/Sending/Rounds.antt =====
-- The send path of ConsoleApplication2/IOCPServer.cpp over many completions: every packet that is
-- queued is handed to the network once, in order, and given back once.
use chatting_server.Base.{
  ℕ, zero, suc, ◌*◌, ◌≤◌, ◌<◌, ◌≡◌, refl, sym, ap, ap₂, ◌∙◌, ◌==◌, if◌then◌else◌, Bool, true, false,
  List, [], ◌∷◌, ◌++◌, length, take, drop, arith, append-nil, append_assoc, length-drop,
  take-append-drop, subst,
}
use chatting_server.Base.Maps.{update_hit}
use chatting_server.IocpServer.Sessions.{Session, SessionTable, set_slot, with_io_count}
use chatting_server.IocpServer.Sending.{
  accepted, batch, loaded, wsa_send, post_batch, post_send, finish, count_sent, finished,
  send_complete,
}
use chatting_server.IocpServer.Sending.Batch.{batch-take, finish-all}

-- What a slot holds of the send path.
abbrev pub Slot : Session → List ℕ → List ℕ → Type 0
Slot v q c =
    (v.send_buf ≡ q)
    × (v.complete_send_buf ≡ c)
    × (v.send_count ≡ length c)
    × (v.is_released ≡ false)

post_batch-Slot :
    (t : SessionTable) (i : ℕ) (ps q c : List ℕ)
    → (t.slots i).send_count ≡ 0
    → (t.slots i).is_released ≡ false
    → c ≡ ps
    → let (u, _, sent) = post_batch accepted t i ps q c in
      (sent ≡ ps) × Slot (u.slots i) q c × (u.dropped ≡ t.dropped)
unfolding post_batch wsa_send loaded
post_batch-Slot t i [] q c idle open_ same =
    let at =
      update_hit t.slots i
        (record (t.slots i) { is_send_flag = false; send_buf = q; complete_send_buf = c }) in
    (
      refl,
      (
        ap Session.send_buf at,
        ap Session.complete_send_buf at,
        ap Session.send_count at ∙ idle ∙ ap length (sym same),
        ap Session.is_released at ∙ open_,
      ),
      refl,
    )
post_batch-Slot t i (p ∷ ps) q c idle open_ same =
    let at = update_hit t.slots i (loaded (t.slots i) q c (length (p ∷ ps))) in
    (
      refl,
      (
        ap Session.send_buf at,
        ap Session.complete_send_buf at,
        ap Session.send_count at ∙ ap length (sym same),
        ap Session.is_released at ∙ open_,
      ),
      refl,
    )

-- The completions of `k` sends, each of `n` bytes, and what the network was given in them.
unfoldable pub rounds : (List ℕ → Bool) → ℕ → ℕ → SessionTable → ℕ → SessionTable × List ℕ
rounds room zero n t i = (t, [])
rounds room (suc k) n t i =
    let (u, sent) = send_complete room accepted n t i in
    let (w, more) = rounds room k n u i in (w, sent ++ more)

module _ (room : List ℕ → Bool) (law : (d : List ℕ) → length d < 4096 → room d ≡ true) where
  post_send-batch :
      (t : SessionTable) (i : ℕ)
      → (t.slots i).is_send_flag ≡ false
      → (t.slots i).complete_send_buf ≡ []
      → let q = (t.slots i).send_buf in
        post_send room accepted t i ≡ post_batch accepted t i (take 100 q) (drop 100 q) (take 100 q)
  unfolding post_send
  post_send-batch t i flag none_left =
      let q = (t.slots i).send_buf in
      let c = (t.slots i).complete_send_buf in
      let b = batch room 100 q c in
      ap (λ f. if f then (t, false, []) else post_batch accepted t i b.0 b.1 b.2) flag
      ∙ ap (λ (b : List ℕ × List ℕ × List ℕ). post_batch accepted t i b.0 b.1 b.2)
          (ap (batch room 100 q) none_left ∙ batch-take room 100 q [] law (omega arith))

  post_send-Slot :
      (t : SessionTable) (i : ℕ)
      → (t.slots i).is_send_flag ≡ false
      → (t.slots i).complete_send_buf ≡ []
      → (t.slots i).send_count ≡ 0
      → (t.slots i).is_released ≡ false
      → let (u, _, sent) = post_send room accepted t i in
        let q = (t.slots i).send_buf in
        (sent ≡ take 100 q) × Slot (u.slots i) (drop 100 q) (take 100 q) × (u.dropped ≡ t.dropped)
  post_send-Slot t i flag none_left idle live =
      let q = (t.slots i).send_buf in
      rw (post_send-batch t i flag none_left)
        (post_batch-Slot t i (take 100 q) (drop 100 q) (take 100 q) idle live refl)

  abbrev emptied : SessionTable → ℕ → SessionTable
  emptied t i =
      record (set_slot t i (record (t.slots i) { send_count = 0; complete_send_buf = [] })) {
        dropped = t.dropped ++ (t.slots i).complete_send_buf;
        send_tps = count_sent (length (t.slots i).complete_send_buf) t.send_tps;
      }

  finished-emptied :
      (t : SessionTable) (i : ℕ)
      → (t.slots i).send_count ≡ length (t.slots i).complete_send_buf
      → finished t i ≡ emptied t i
  unfolding finished
  finished-emptied t i counted =
      let v = t.slots i in
      let c = v.complete_send_buf in
      ap
        (λ (r : List ℕ × List ℕ × Bool).
          let u = record (set_slot t i (record v { send_count = 0; complete_send_buf = r.1 })) {
            dropped = t.dropped ++ r.0;
            send_tps = count_sent (length r.0) t.send_tps;
          } in
          if r.2 then chatting_server.IocpServer.Sessions.close_session u i else u)
        (ap (λ n. finish n c) counted ∙ finish-all c)

  abbrev ready : SessionTable → ℕ → SessionTable
  ready t i = set_slot (emptied t i) i (record ((emptied t i).slots i) { is_send_flag = false })

  abbrev unflagged : Session → Session
  unflagged v = record v { is_send_flag = false }

  abbrev given_back : Session → Session
  given_back v = record v { send_count = 0; complete_send_buf = [] }

  slot_ready : (t : SessionTable) (i : ℕ) → (ready t i).slots i ≡ unflagged (given_back (t.slots i))
  slot_ready t i =
      update_hit (emptied t i).slots i (unflagged ((emptied t i).slots i))
      ∙ ap unflagged (update_hit t.slots i (given_back (t.slots i)))

  -- The end of `SendComplete`.
  abbrev resend : SessionTable → ℕ → SessionTable × List ℕ
  resend t i = let r = post_send room accepted t i in (r.0, r.2)

  abbrev unlock_flag : SessionTable → ℕ → SessionTable
  unlock_flag t i = set_slot t i (unflagged (t.slots i))

  send_complete-ready :
      (t : SessionTable) (i n : ℕ)
      → (n == 0) ≡ false
      → (t.slots i).send_count ≡ length (t.slots i).complete_send_buf
      → (t.slots i).is_released ≡ false
      → send_complete room accepted n t i ≡ resend (ready t i) i
  unfolding send_complete
  send_complete-ready t i n some_bytes counted live =
      ap
        (λ b.
          let t1 =
            finished (if b then chatting_server.IocpServer.Sessions.close_session t i else t) i in
          if ((unlock_flag t1 i).slots i).is_released
          then (unlock_flag t1 i, [])
          else resend (unlock_flag t1 i) i)
        some_bytes
      ∙ ap
          (λ t1.
            if ((unlock_flag t1 i).slots i).is_released
            then (unlock_flag t1 i, [])
            else resend (unlock_flag t1 i) i)
          (finished-emptied t i counted)
      ∙ ap (λ b. if b then (ready t i, []) else resend (ready t i) i)
          (ap Session.is_released (slot_ready t i) ∙ live)

  -- One completion of a send: the packets of the batch that was sent are given back, and the next
  -- batch goes to the network.
  pub send_complete-Slot :
      (t : SessionTable) (i n : ℕ) (q c : List ℕ)
      → (n == 0) ≡ false
      → Slot (t.slots i) q c
      → let (u, sent) = send_complete room accepted n t i in
        (sent ≡ take 100 q)
        × Slot (u.slots i) (drop 100 q) (take 100 q)
        × (u.dropped ≡ t.dropped ++ c)
  send_complete-Slot t i n q c some_bytes (queue, sent, count, live) =
      let at = slot_ready t i in
      let r =
        post_send-Slot (ready t i) i (ap Session.is_send_flag at) (ap Session.complete_send_buf at)
          (ap Session.send_count at) (ap Session.is_released at ∙ live) in
      let same : ((ready t i).slots i).send_buf ≡ q = ap Session.send_buf at ∙ queue in
      rw (send_complete-ready t i n some_bytes (count ∙ ap length (sym sent)) live) (
        subst
          (λ p.
            let (u, _, out) = post_send room accepted (ready t i) i in
            (out ≡ take 100 p)
            × Slot (u.slots i) (drop 100 p) (take 100 p)
            × (u.dropped ≡ t.dropped ++ c))
          same (r.0, r.1, r.2 ∙ ap (λ d. t.dropped ++ d) sent))

  -- On a live session that waits for the completion of the batch `c`, with the packets `q` queued
  -- behind it: after one completion more than there are batches of a hundred, every packet of `q` has
  -- been given to the network once, in order, every packet of `c` and `q` has been given back once,
  -- in order, and nothing is queued.
  pub rounds_send_all :
      (k n : ℕ) (t : SessionTable) (i : ℕ) (q c : List ℕ)
      → (n == 0) ≡ false
      → length q ≤ 100 * k
      → Slot (t.slots i) q c
      → let (u, sent) = rounds room (suc k) n t i in
        (sent ≡ q) × Slot (u.slots i) [] [] × (u.dropped ≡ t.dropped ++ (c ++ q))
  unfolding rounds
  rounds_send_all zero n t i [] c some_bytes few h =
      let (sent, slot, dropped) = send_complete-Slot t i n [] c some_bytes h in
      (append-nil _ ∙ sent, slot, dropped ∙ ap (λ d. t.dropped ++ d) (sym (append-nil c)))
  rounds_send_all zero n t i (p ∷ q) c some_bytes few h = absurd (omega arith)
  rounds_send_all (suc k) n t i q c some_bytes few h =
      let step = send_complete-Slot t i n q c some_bytes h in
      let u = (send_complete room accepted n t i).0 in
      let (sent, slot, dropped) =
        rounds_send_all k n u i (drop 100 q) (take 100 q) some_bytes
          (omega (arith, length-drop 100 q)) step.1 in
      (
        ap₂ ◌++◌ step.0 sent ∙ take-append-drop 100 q,
        slot,
        dropped ∙ ap₂ ◌++◌ step.2 (take-append-drop 100 q) ∙ append_assoc t.dropped c q,
      )
