-- ===== src/Node/Waiting.antt =====
-- What the callbacks of cmd/node/main.go that are started and have not run yet will make of the
-- ring.
use p2p_container_distributi.Prelude.{
  ◌≡◌, refl, sym, ap, ◌∙◌, subst, Bool, true, false, List, [], ◌∷◌, ◌++◌, arith, Bytes, bytes_eq,
  ◌==◌, ==_iff, contains, Bool-cases, inl, inr, if◌then◌else◌,
}
use p2p_container_distributi.Ring.{Ring}
use p2p_container_distributi.Ring.Members.{contains-add_node, contains-remove_node}
use p2p_container_distributi.Cluster.{Call}
use p2p_container_distributi.Recovery.{handle_node_dead, handle_node_alive}
use p2p_container_distributi.Node.{Callback, node_dead, node_alive}
use p2p_container_distributi.Node.Run.{call_back, callback_of, about, perform, NoneAbout}

-- What a callback makes of the node it is about: on the ring, or not.
abbrev pub effect : Callback → Bool
effect node_dead = false
effect node_alive = true

-- Whether `y` is on the ring after the calls, if it is now as `b` says.
abbrev pub settled : Bytes → List (Call Callback) → Bool → Bool
settled y [] b = b
settled y (c ∷ cs) b = settled y cs (if about c == y then effect (callback_of c) else b)

pub settled-append :
    (y : Bytes) (cs ds : List (Call Callback)) (b : Bool)
    → settled y (cs ++ ds) b ≡ settled y ds (settled y cs b)
settled-append y [] ds b = refl
settled-append y (c ∷ cs) ds b = settled-append y cs ds _

settled-NoneAbout :
    (y : Bytes) (cs : List (Call Callback)) (b : Bool) → NoneAbout y cs → settled y cs b ≡ b
settled-NoneAbout y [] b h = refl
settled-NoneAbout y (c ∷ cs) b h = rw h.0 (settled-NoneAbout y cs b h.1)

contains-call_back :
    (sha1 : Bytes → Bytes) (f : Callback) (id : Bytes) (r : Ring) (y : Bytes)
    → contains (call_back sha1 f id r).nodes y ≡ (if id == y then effect f else contains r.nodes y)
unfolding call_back handle_node_dead handle_node_alive
contains-call_back sha1 node_dead id r y =
    contains-remove_node r id y ∙ ground (arith, ==_iff y id, ==_iff id y)
contains-call_back sha1 node_alive id r y = contains-add_node sha1 r id y ∙ ground arith

contains-perform :
    (sha1 : Bytes → Bytes) (c : Call Callback) (r : Ring) (y : Bytes)
    → contains (perform sha1 c r).nodes y
      ≡ (if about c == y then effect (callback_of c) else contains r.nodes y)
unfolding perform
contains-perform sha1 c r y = contains-call_back sha1 (callback_of c) (about c) r y

-- A call that runs before those in front of it, which are about other nodes, makes no difference.
pub settled-runs :
    (sha1 : Bytes → Bytes) (y : Bytes) (cs ds : List (Call Callback)) (c : Call Callback) (r : Ring)
    → NoneAbout (about c) cs
    → settled y (cs ++ ds) (contains (perform sha1 c r).nodes y)
      ≡ settled y (cs ++ c ∷ ds) (contains r.nodes y)
settled-runs sha1 y cs ds c r h =
    let b : Bool = contains r.nodes y in
    let last : Bool = if about c == y then effect (callback_of c) else b in
    let inner : settled y cs last
        ≡ (if about c == y then effect (callback_of c) else settled y cs b) =
      elim (Bool-cases (about c == y)) [
        | inl same ↦ rw same (
            settled-NoneAbout y cs (effect (callback_of c))
              (subst (λ z. NoneAbout z cs) ((==_iff (about c) y).0 same) h))
        | inr other ↦ rw other refl
      ] in
    settled-append y cs ds _
    ∙ ap (λ z. settled y ds (settled y cs z)) (contains-perform sha1 c r y)
    ∙ ap (settled y ds) inner
    ∙ sym (settled-append y cs (c ∷ ds) b)
