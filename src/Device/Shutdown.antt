-- ===== src/Device/Shutdown.antt =====
-- kernel/src/virtusb_device.c: the shutdown of all devices, on a registry and a port graph as the code
-- builds them.
use virt_usb.Prelude.{
  ℕ, zero, suc, ◌≡◌, ◌≢◌, ◌<◌, arith, ap, sym, subst, ◌∙◌, true, false, some, is_negative, is_some,
  length, ℤ, Option-cases, if_holds, inl, inr,
}
use virt_usb.Topology.{device_port, Topology}
use virt_usb.Port
use virt_usb.Port.{is_upstream}
use virt_usb.Hub.Change.{IsSound}
use virt_usb.Object.Store.{Objects, object_type_device, xa_load}
use virt_usb.Object.Refs.{get, put}
use virt_usb.Object.Manager.{unregister, first_by_type, lookup_first_by_type}
use virt_usb.Object.Filing.{IsFiled, Same-IsFiled, get-Same, put-Same, view}
use virt_usb.Object.Promise.{unregister-Removes}
use virt_usb.Object.Search.{
  unregister_shortens, unregister-topology, get-topology, put-topology, first_by_type_found,
  first_by_type_missing,
}
use virt_usb.Device.Link.{detach, set_connection_signaling, get_attached_hub}
use virt_usb.Device.Detach.{detach-IsSound}
use virt_usb.Device.Signal.{set_connection_signaling-IsSound}
use virt_usb.Device.Life.{disconnect, destroy, shutdown_all}

-- The signal of an attached device can always be withdrawn.
signals :
    (d : ℕ) (t : Topology)
    → IsSound t
    → is_some (t.port (device_port d)).peer ≡ true
    → is_negative (set_connection_signaling (some d) false t).0 ≡ false
unfolding set_connection_signaling Port.set_connection_signaling
signals d t s e = elim (s.well_formed.device_ports d) [
  | inl (role, owner) ↦ elim (Option-cases (get_attached_hub (some d) t)) [
    | inl loose ↦ ground (arith, loose, role)
    | inr (at, found) ↦ ground (arith, found, role)
  ]
  | inr (role, alone) ↦ absurd (ground (arith, alone, e))
]

-- The objects after a device is gone.
record Gone (s s' : Objects) : Type 0 where
  filed : IsFiled s'
  sound : IsSound s'.topology
  shorter : suc (length s'.registry) ≡ length s.registry

unregister-Gone :
    (d : ℕ) (s : Objects)
    → IsFiled s
    → IsSound s.topology
    → xa_load s.registry (s.object d).id ≡ some d
    → Gone s (unregister (some d) s).1
unregister-Gone d s f w e = record {
  filed = (unregister-Removes d s f).0;
  sound = subst IsSound (sym (unregister-topology d s)) w;
  shorter = unregister_shortens d s f e;
}

with_topology : (t : Topology) (s : Objects) → IsFiled s → IsFiled (record s { topology = t })
with_topology t s f = record { order = f.order; filed = f.filed; fresh = f.fresh }

-- A device that the registry has is destroyed, attached or not.
destroy-Gone :
    (d : ℕ) (s : Objects)
    → IsFiled s
    → IsSound s.topology
    → xa_load s.registry (s.object d).id ≡ some d
    → Gone s (destroy (some d) true s).1
unfolding destroy disconnect
destroy-Gone d s f w e =
    let t = (set_connection_signaling (some d) false s.topology).1 in
    if_holds (λ (x : ℤ × Objects). Gone s x.1) (is_some (s.topology.port (device_port d)).peer) _ _
      (λ linked.
        if_holds (λ (x : ℤ × Objects). Gone s x.1)
          (is_negative (set_connection_signaling (some d) false s.topology).0) _ _
          (λ bad. absurd (ground (arith, bad, signals d s.topology w linked)))
          (λ good.
            let gone =
              unregister-Gone d (record s { topology = detach (some d) t }) (with_topology _ s f)
                (detach-IsSound (some d) t
                  (set_connection_signaling-IsSound (some d) false s.topology w))
                e in
            record { filed = gone.filed; sound = gone.sound; shorter = gone.shorter }))
      (λ free. unregister-Gone d s f w e)

-- One round of the loop, for a device that was found.
round-Gone :
    (d : ℕ) (s : Objects)
    → IsFiled s
    → IsSound s.topology
    → first_by_type object_type_device s.registry s ≡ some d
    → Gone s (put (some d) (destroy (some d) true (get (some d) s)).1)
round-Gone d s f w found =
    let same = get-Same (some d) s in
    let (i, at) = first_by_type_found object_type_device 0 d s.registry s f.order found in
    let held = Same-IsFiled same f in
    let here : xa_load (get (some d) s).registry ((get (some d) s).object d).id ≡ some d =
      ap (λ r. xa_load r ((get (some d) s).object d).id) same.registry
      ∙ ap (xa_load s.registry) (same.id d ∙ (f.filed i d at).1)
      ∙ at in
    let gone =
      destroy-Gone d (get (some d) s) held (subst IsSound (sym (get-topology (some d) s)) w) here in
    let back = put-Same (some d) (destroy (some d) true (get (some d) s)).1 in
    record {
      filed = Same-IsFiled back gone.filed;
      sound =
          subst IsSound (sym (put-topology (some d) (destroy (some d) true (get (some d) s)).1))
            gone.sound;
      shorter = ap (λ r. suc (length r)) back.registry ∙ gone.shorter ∙ ap length same.registry;
    }

-- If the registry is filed and the port graph is sound, then the shutdown of all devices returns
-- with any fuel above the number of registered objects, the port graph is sound after it, and no
-- device is registered.
pub shutdown_all_total :
    (fuel : ℕ) (s : Objects)
    → IsFiled s
    → IsSound s.topology
    → length s.registry < fuel
    → (s' : Objects) × (shutdown_all fuel s ≡ some s')
      × (IsSound s'.topology)
      × ((i o : ℕ) → view s' i ≡ some o → (s'.object o).type ≢ object_type_device)
unfolding shutdown_all lookup_first_by_type
shutdown_all_total zero s f w h = absurd (omega arith)
shutdown_all_total (suc fuel) s f w h =
    elim (Option-cases (first_by_type object_type_device s.registry s)) [
      | inl missing ↦ (
        s,
        ground (arith, missing),
        w,
        λ i o. first_by_type_missing object_type_device i o s.registry s missing,
      )
      | inr (d, found) ↦
          let gone = round-Gone d s f w found in
          let (s', ends, sound, none_left) =
            shutdown_all_total fuel _ gone.filed gone.sound (omega (arith, gone.shorter)) in
          (s', ground (arith, found, ends), sound, none_left)
    ]
