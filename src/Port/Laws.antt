-- ===== src/Port/Laws.antt =====
-- The links of the port graph of kernel/src/virtusb_port.c.
use virt_usb.Prelude.{◌↔◌, Bool, Option, none, some, success, ◌≡◌, refl, arith}
use virt_usb.Topology.{PortRef, Role, upstream, downstream, Topology}
use virt_usb.Port.{attach, detach, unlink_peer, set_powered}

-- Two ports are linked: one end is downstream, the other upstream.
abbrev pub Opposite : Role → Role → Type 0
Opposite downstream r = r ≡ upstream
Opposite upstream r = r ≡ downstream
Opposite _ r = ⊥

-- Every link has two ends that point at one another, of opposite roles.
pub record IsLinked (t : Topology) : Type 0 where
  pub mutual_peers : (p q : PortRef) → (t.port p).peer ≡ some q → (t.port q).peer ≡ some p
  pub opposite_roles :
      (p q : PortRef) → (t.port p).peer ≡ some q → Opposite (t.port p).role (t.port q).role

-- Attaching any two ports, NULL pointers included, keeps every link two-ended and between a
-- downstream and an upstream port.
pub attach-IsLinked : (d u : Option PortRef) (t : Topology) → IsLinked t → IsLinked (attach d u t).1
unfolding attach
attach-IsLinked none u t h = h
attach-IsLinked (some d) none t h = h
attach-IsLinked (some d) (some u) t h = record {
  mutual_peers = λ p q e. ground (arith, h.mutual_peers p q);
  opposite_roles = λ p q e. ground (arith, h.opposite_roles p q);
}

unlink_peer-IsLinked :
    (port : PortRef) (peer : Option PortRef) (t : Topology)
    → (t.port port).peer ≡ peer
    → IsLinked t
    → IsLinked (unlink_peer port peer t)
unfolding unlink_peer
unlink_peer-IsLinked port none t e h = h
unlink_peer-IsLinked port (some peer) t e h = record {
  mutual_peers =
      λ p q e'. ground (arith, h.mutual_peers p q, h.mutual_peers port peer, h.mutual_peers q p);
  opposite_roles = λ p q e'. ground (arith, h.opposite_roles p q, h.mutual_peers port peer);
}

-- Detaching any port, a NULL pointer included, keeps every link two-ended and between a
-- downstream and an upstream port.
pub detach-IsLinked : (port : Option PortRef) (t : Topology) → IsLinked t → IsLinked (detach port t)
unfolding detach
detach-IsLinked none t h = h
detach-IsLinked (some port) t h = unlink_peer-IsLinked port (t.port port).peer t refl h

pub set_powered-IsLinked :
    (port : Option PortRef) (b : Bool) (t : Topology)
    → IsLinked t
    → IsLinked (set_powered port b t).1
unfolding set_powered
set_powered-IsLinked none b t h = h
set_powered-IsLinked (some port) b t h = record {
  mutual_peers = λ p q e. ground (arith, h.mutual_peers p q);
  opposite_roles = λ p q e. ground (arith, h.opposite_roles p q);
}

-- Attaching two ports succeeds exactly if the first is downstream, the second is upstream, and
-- neither has a peer.
pub attach_result :
    (d u : PortRef) (t : Topology)
    → ((attach (some d) (some u) t).0 ≡ success) ↔ (
        ((t.port d).role ≡ downstream)
        × ((t.port u).role ≡ upstream)
        × ((t.port d).peer ≡ none)
        × ((t.port u).peer ≡ none))
unfolding attach
attach_result d u t = ground arith

-- Detaching the upstream port after an attachment that succeeded gives every port its former
-- contents.
pub attach-detach :
    (d u : PortRef) (t : Topology)
    → (attach (some d) (some u) t).0 ≡ success
    → (r : PortRef) → (detach (some u) (attach (some d) (some u) t).1).port r ≡ t.port r
unfolding attach detach unlink_peer
attach-detach d u t h r = ground arith
