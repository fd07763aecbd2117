-- ===== src/IocpServer/Sending/Idle.antt =====
-- `SendPacket` of ConsoleApplication2/IOCPServer.cpp on a session that has nothing to send.
use chatting_server.Base.{
  ℕ, ◌+◌, ◌-◌, ◌%◌, ◌^◌, ◌<◌, ◌≡◌, refl, ap, ◌==◌, if◌then◌else◌, Bool, true, false, List, [], ◌∷◌,
  some, arith, ◌∙◌,
}
use chatting_server.Base.Maps.{update_hit}
use chatting_server.IocpServer.Sessions.{
  Session, SessionTable, session_index, set_slot, with_io_count, session_lock, session_unlock,
}
use chatting_server.IocpServer.Sessions.Locking.{session_lock_cases}
use chatting_server.IocpServer.Sending.{
  accepted, push, batch, loaded, wsa_send, post_batch, post_send, send_locked,
}

-- A live session of the id that has nothing to send, with `n` operations under way.
pub record Idle (sid n : ℕ) (v : Session) : Type 0 where
  pub named : v.session_id ≡ sid
  pub live : v.is_released ≡ false
  pub count : v.io_count ≡ n
  pub flag : v.is_send_flag ≡ false
  pub queue : v.send_buf ≡ []
  pub given : v.complete_send_buf ≡ []

abbrev with_queue : List ℕ → Session → Session
with_queue q v = record v { send_buf = q }

-- The session when the packet is on its way and its counter is `m`.
abbrev pub sending : ℕ → ℕ → Session → Session
sending p m v = with_io_count m (loaded (with_queue (p ∷ []) v) [] (p ∷ []) 1)

module _ (room : List ℕ → Bool) (law : room [] ≡ true) where
  post_send-one :
      (t : SessionTable) (i p : ℕ)
      → (t.slots i).is_send_flag ≡ false
      → (t.slots i).send_buf ≡ p ∷ []
      → (t.slots i).complete_send_buf ≡ []
      → post_send room accepted t i
        ≡ (set_slot t i (loaded (t.slots i) [] (p ∷ []) 1), true, p ∷ [])
  unfolding post_send batch post_batch wsa_send
  post_send-one t i p flag queue given =
      let v = t.slots i in
      ap
        (λ f.
          let b = batch room 100 v.send_buf v.complete_send_buf in
          if f then (t, false, []) else post_batch accepted t i b.0 b.1 b.2)
        flag
      ∙ ap
          (λ q. let b = batch room 100 q v.complete_send_buf in post_batch accepted t i b.0 b.1 b.2)
          queue
      ∙ ap (λ c. let b = batch room 100 (p ∷ []) c in post_batch accepted t i b.0 b.1 b.2) given
      ∙ ap (λ b. (set_slot t i (loaded v [] (if b then p ∷ [] else []) 1), true, p ∷ [])) law

  abbrev queue_up : SessionTable → ℕ → ℕ → SessionTable
  queue_up t i p = set_slot t i (with_queue (push room (t.slots i).send_buf p) (t.slots i))

  send_locked-one :
      (t : SessionTable) (i p : ℕ)
      → (t.slots i).is_released ≡ false
      → let r = post_send room accepted (queue_up t i p) i in
        send_locked room accepted t (some i) p ≡ (session_unlock r.0 i, r.2)
  unfolding send_locked
  send_locked-one t i p live =
      let u = queue_up t i p in
      let r = post_send room accepted u i in
      ap (λ b. if b then (session_unlock u i, []) else (session_unlock r.0 i, r.2)) live

  session_unlock-more :
      (t : SessionTable) (i m : ℕ)
      → (t.slots i).io_count ≡ m + 2
      → m + 2 < 2 ^ 32
      → session_unlock t i ≡ set_slot t i (with_io_count (m + 1) (t.slots i))
  unfolding session_unlock
  session_unlock-more t i m count small =
      let less : ((t.slots i).io_count + 2 ^ 32 - 1) % 2 ^ 32 ≡ m + 1 = omega (arith, count) in
      let more : (m + 1 == 0) ≡ false = ground arith in rw (less, more) refl

  -- From the lock to the unlock.
  send_locked-Idle :
      (t : SessionTable) (i p m : ℕ)
      → (t.slots i).is_released ≡ false
      → (t.slots i).is_send_flag ≡ false
      → (t.slots i).send_buf ≡ []
      → (t.slots i).complete_send_buf ≡ []
      → (t.slots i).io_count ≡ m + 1
      → m + 2 < 2 ^ 32
      → (u : SessionTable) × (send_locked room accepted t (some i) p ≡ (u, p ∷ []))
        × (u.slots i ≡ sending p (m + 1) (t.slots i))
        × ((j : ℕ) → (i == j) ≡ false → u.slots j ≡ t.slots j)
        × (u.left ≡ t.left)
  send_locked-Idle t i p m live flag queue given count small =
      let v : Session = t.slots i in
      let q : SessionTable = queue_up t i p in
      let filled : push room v.send_buf p ≡ p ∷ [] =
        ap (λ b. push room b p) queue ∙ ap (λ b. if b then p ∷ [] else []) law in
      let at : q.slots i ≡ with_queue (p ∷ []) v =
        update_hit t.slots i _ ∙ ap (λ b. with_queue b v) filled in
      let w : SessionTable = set_slot q i (loaded (q.slots i) [] (p ∷ []) 1) in
      let there : w.slots i ≡ loaded (with_queue (p ∷ []) v) [] (p ∷ []) 1 =
        update_hit q.slots i _ ∙ ap (λ b. loaded b [] (p ∷ []) 1) at in
      let more : (w.slots i).io_count ≡ m + 2 =
        ap Session.io_count there ∙ unfold loaded in (omega (arith, count)) in
      (
        set_slot w i (with_io_count (m + 1) (w.slots i)),
        send_locked-one t i p live
            ∙ ap (λ (r : SessionTable × Bool × List ℕ). (session_unlock r.0 i, r.2))
                (post_send-one q i p (ap Session.is_send_flag at ∙ flag) (ap Session.send_buf at)
                  (ap Session.complete_send_buf at ∙ given))
            ∙ ap (λ u. (u, p ∷ [])) (session_unlock-more w i m more small),
        update_hit w.slots i _ ∙ ap (with_io_count (m + 1)) there,
        λ j other. rw other refl,
        refl,
      )

  module _ (t : SessionTable) (sid n p : ℕ) (idle : Idle sid n (t.slots (session_index sid)))
      (small : n + 2 < 2 ^ 32) where
    abbrev pub i : ℕ
    i = session_index sid

    abbrev pub locked : SessionTable
    locked = set_slot t i (with_io_count (n + 1) (t.slots i))

    pub lock : session_lock t sid ≡ (locked, some i)
    lock = ((session_lock_cases t sid n idle.count (omega (arith, small))).0 idle.named idle.live).0

    -- On a live session that has nothing to send, once `SessionLock` has locked it, `SendPacket`
    -- gives the packet to the network at once, counts the operation, and leaves every other session as it is.
    pub send_idle :
        (u : SessionTable) × (send_locked room accepted locked (some i) p ≡ (u, p ∷ []))
        × (u.slots i ≡ sending p (n + 1) (t.slots i))
        × ((j : ℕ) → (i == j) ≡ false → u.slots j ≡ t.slots j)
        × (u.left ≡ t.left)
    send_idle =
        let at = update_hit t.slots i (with_io_count (n + 1) (t.slots i)) in
        let (u, runs, here, there, left) =
          send_locked-Idle locked i p n (ap Session.is_released at ∙ idle.live)
            (ap Session.is_send_flag at ∙ idle.flag) (ap Session.send_buf at ∙ idle.queue)
            (ap Session.complete_send_buf at ∙ idle.given) (ap Session.io_count at) small in
        (
          u,
          runs,
          here ∙ ap (sending p (n + 1)) at ∙ (unfold loaded in refl),
          λ j other. there j other ∙ rw other refl,
          left,
        )
