-- ===== src/X11/FakeIds.antt =====
-- The ids that the fake backend answers with.
use clipbus.Base.{
  ℕ, suc, ◌≤◌, ◌<◌, ◌+◌, ◌≡◌, ◌∷◌, [], ◌++◌, List, Result, ok, length, arith, max, saturating_add,
  ap, sym, ◌∙◌, u64_max,
}
use mathlib.Core.List.{append-nil, append_assoc}
use clipbus.Text.{Text}
use clipbus.Status.{Status}
use clipbus.Clipboard.{
  Command, Callbacks, publish_targets, clear, complete_request, begin_request_stream,
  write_request_stream, end_request_stream, request_targets, request_target_data, stop,
}
use clipbus.Clipboard.Notify.{notify_target_list, notify_target_data}
use clipbus.Trace.{Act, Trace}
use clipbus.X11.Run.{run_fake, fake_loop}

-- the answers on the reply channels, in the order in which they were given
abbrev reply_of : Act → List (ℕ × Result Status ℕ)
reply_of (Act.send_reply channel r) = (channel, r) ∷ []
reply_of _ = []

abbrev pub replies : Trace → List (ℕ × Result Status ℕ)
replies [] = []
replies (a ∷ t) = replies t ++ reply_of a

-- the channels of the commands that ask for a reply, up to a stop
abbrev pub askers : List Command → List ℕ
askers [] = []
askers (stop ∷ cs) = []
askers (request_targets reply ∷ cs) = reply ∷ askers cs
askers (request_target_data native_target max_bytes reply ∷ cs) = reply ∷ askers cs
askers (_ ∷ cs) = askers cs

-- each channel gets the next number
abbrev pub numbered : ℕ → List ℕ → List (ℕ × Result Status ℕ)
numbered id [] = []
numbered id (channel ∷ channels) = (channel, ok id) ∷ numbered (suc id) channels

notify_target_list-replies :
    (cb : Callbacks) (id : ℕ) (t : Trace)
    → replies (notify_target_list cb id Status.ok [] ++ t) ≡ replies t
unfolding notify_target_list
notify_target_list-replies cb id t = ground (arith, append-nil (replies t))

notify_target_data-replies :
    (cb : Callbacks) (id : ℕ) (name : Text) (t : Trace)
    → replies (notify_target_data cb id name Status.unsupported [] ++ t) ≡ replies t
unfolding notify_target_data
notify_target_data-replies cb id name t = ground (arith, append-nil (replies t))

fake_loop-numbered :
    (cb : Callbacks) (cs : List Command) (id : ℕ) (t : Trace)
    → 1 ≤ id
    → id + length (askers cs) ≤ u64_max
    → replies (fake_loop cb cs (id, t)).1 ≡ replies t ++ numbered id (askers cs)
unfolding fake_loop
fake_loop-numbered cb [] id t p h = sym (append-nil (replies t))
fake_loop-numbered cb (stop ∷ cs) id t p h = sym (append-nil (replies t))
fake_loop-numbered cb (publish_targets os ∷ cs) id t p h = fake_loop-numbered cb cs id t p h
fake_loop-numbered cb (clear ∷ cs) id t p h = fake_loop-numbered cb cs id t p h
fake_loop-numbered cb (complete_request i st d ∷ cs) id t p h = fake_loop-numbered cb cs id t p h
fake_loop-numbered cb (begin_request_stream i n ∷ cs) id t p h = fake_loop-numbered cb cs id t p h
fake_loop-numbered cb (write_request_stream i d ∷ cs) id t p h = fake_loop-numbered cb cs id t p h
fake_loop-numbered cb (end_request_stream i st ∷ cs) id t p h = fake_loop-numbered cb cs id t p h
fake_loop-numbered cb (request_targets reply ∷ cs) id t p h =
    let t1 : Trace = Act.send_reply reply (ok id) ∷ t in
    let t2 : Trace = notify_target_list cb id Status.ok [] ++ t1 in
    let next : max (saturating_add id 1) 1 ≡ suc id = omega (arith, h) in
    ap (λ i. replies (fake_loop cb cs (i, t2)).1) next
    ∙ fake_loop-numbered cb cs (suc id) t2 (omega arith) (omega (arith, h))
    ∙ ap (λ rs. rs ++ numbered (suc id) (askers cs)) (notify_target_list-replies cb id t1)
    ∙ append_assoc (replies t) ((reply, ok id) ∷ []) (numbered (suc id) (askers cs))
fake_loop-numbered cb (request_target_data name n reply ∷ cs) id t p h =
    let t1 : Trace = Act.send_reply reply (ok id) ∷ t in
    let t2 : Trace = notify_target_data cb id name Status.unsupported [] ++ t1 in
    let next : max (saturating_add id 1) 1 ≡ suc id = omega (arith, h) in
    ap (λ i. replies (fake_loop cb cs (i, t2)).1) next
    ∙ fake_loop-numbered cb cs (suc id) t2 (omega arith) (omega (arith, h))
    ∙ ap (λ rs. rs ++ numbered (suc id) (askers cs)) (notify_target_data-replies cb id name t1)
    ∙ append_assoc (replies t) ((reply, ok id) ∷ []) (numbered (suc id) (askers cs))

-- The fake backend answers every command that asks for a reply, up to a stop and in the order of the
-- commands, with the ids 1, 2, 3 and so on, and gives no other answer; there are fewer such commands
-- than u64::MAX.
pub run_fake-numbered :
    (cb : Callbacks) (cs : List Command)
    → length (askers cs) < u64_max
    → replies (run_fake cb cs) ≡ numbered 1 (askers cs)
unfolding run_fake
run_fake-numbered cb cs h = fake_loop-numbered cb cs 1 [] (omega arith) (omega (arith, h))
