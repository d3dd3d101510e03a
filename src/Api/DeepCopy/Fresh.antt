-- ===== src/Api/DeepCopy/Fresh.antt =====
-- A deep copy stands for the same value, in cells of its own.
use gardener_extension_netwo.Prelude.{◌≡◌, refl, ℕ, ◌≤◌, String, Option, some, arith, length}
use gardener_extension_netwo.Api.Types
use gardener_extension_netwo.Api.Types.{NetworkConfig, NetworkStatus}
use gardener_extension_netwo.Api.Memory.{
  network_status, network_status_in, Ptr, text, ipam, ipv4, typha, network_config, Memory, pure,
  text_in, ipam_in, ipv4_in, typha_in, network_config_in, copy_field,
}
use gardener_extension_netwo.Store.Stable.{field-Stable}
use gardener_extension_netwo.Store.Copies.{
  Extends-refl, Extends-trans, Own, Own-extends, Agree, Agree-refl, IsCopy, Builds, optional,
  through, copy_field-IsCopy, IsCopy-later, IsCopy-pure,
}
use gardener_extension_netwo.Api.Memory.Readings.{
  read_network_status, read_network_config-some, read_network_config-Stable, read_string, read_ipam,
  read_ipv4, read_typha, read_network_config, read_ipam-eq-some, read_ipv4-eq-some,
  read_network_config-eq-some,
}
use gardener_extension_netwo.Api.DeepCopy.{
  copy_text, copy_ipam, copy_ipv4, copy_typha, copy_network_config, ipam_deep_copy_into,
  ipv4_deep_copy_into, network_config_deep_copy_into, network_config_deep_copy,
  network_config_deep_copy_object, network_status_deep_copy, copy_network_status,
  zero_network_status, zero_ipam, zero_ipv4, zero_typha, zero_network_config,
}

-- The readings of the fields.
abbrev text_at : Option Ptr → Memory → Option (Option String)
text_at = optional (through text_in read_string)

abbrev ipam_at : Option Ptr → Memory → Option (Option Types.Ipam)
ipam_at = optional (through ipam_in read_ipam)

abbrev ipv4_at : Option Ptr → Memory → Option (Option Types.Ipv4)
ipv4_at = optional (through ipv4_in read_ipv4)

abbrev typha_at : Option Ptr → Memory → Option (Option Types.Typha)
typha_at = optional (through typha_in read_typha)

abbrev pub network_config_at : Option Ptr → Memory → Option (Option NetworkConfig)
network_config_at = optional (through network_config_in read_network_config)

copy_text-IsCopy :
    (n : ℕ) (m : Memory) (p : Option Ptr) (v : Option String)
    → n ≤ length m
    → Own 0 m (text_at p) v
    → IsCopy n m text_at v (copy_field (text "") copy_text p m)
unfolding copy_text
copy_text-IsCopy n m p v h own =
    copy_field-IsCopy text_in text (λ a. refl) (text "") pure read_string
      (λ n m s v h own. IsCopy-pure n m read_string v s (λ o agree. own m (Agree-refl 0 m))) n m p v
      h own

ipam_deep_copy_into-Builds : Builds read_ipam ipam_deep_copy_into
unfolding ipam_deep_copy_into
ipam_deep_copy_into-Builds n m s v h own =
    let field = λ (o : Memory) (agree : Agree 0 m o). read_ipam-eq-some s o (own o agree) in
    let a = copy_text-IsCopy n m s.cidr v.cidr h (λ o agree. (field o agree).1) in
    record {
      out = record s { cidr = a.out };
      after = a.after;
      returns = rw a.returns;
      kept = a.kept;
      owned = λ o agree. rw (a.owned o agree, (field m (Agree-refl 0 m)).0);
    }

ipv4_deep_copy_into-Builds : Builds read_ipv4 ipv4_deep_copy_into
unfolding ipv4_deep_copy_into
ipv4_deep_copy_into-Builds n m s v h own =
    let field = λ (o : Memory) (agree : Agree 0 m o). read_ipv4-eq-some s o (own o agree) in
    let a = copy_text-IsCopy n m s.pool v.pool h (λ o agree. (field o agree).0) in
    let b = IsCopy-later copy_text-IsCopy h a.kept s.mode v.mode (λ o agree. (field o agree).1) in
    let y = Extends-trans a.kept b.kept in
    let c =
      IsCopy-later copy_text-IsCopy h y s.auto_detection_method v.auto_detection_method
        (λ o agree. (field o agree).2) in
    record {
      out = record { pool = a.out; mode = b.out; auto_detection_method = c.out };
      after = c.after;
      returns = rw (a.returns, b.returns, c.returns);
      kept = Extends-trans y c.kept;
      owned = λ o agree. rw (
        Own-extends (text_at a.out) a.owned (Extends-trans b.kept c.kept) o agree,
        Own-extends (text_at b.out) b.owned c.kept o agree,
        c.owned o agree,
      );
    }

copy_ipam-IsCopy :
    (n : ℕ) (m : Memory) (p : Option Ptr) (v : Option Types.Ipam)
    → n ≤ length m
    → Own 0 m (ipam_at p) v
    → IsCopy n m ipam_at v (copy_field (ipam zero_ipam) copy_ipam p m)
unfolding copy_ipam
copy_ipam-IsCopy =
    copy_field-IsCopy ipam_in ipam (λ a. refl) (ipam zero_ipam) ipam_deep_copy_into read_ipam
      ipam_deep_copy_into-Builds

copy_ipv4-IsCopy :
    (n : ℕ) (m : Memory) (p : Option Ptr) (v : Option Types.Ipv4)
    → n ≤ length m
    → Own 0 m (ipv4_at p) v
    → IsCopy n m ipv4_at v (copy_field (ipv4 zero_ipv4) copy_ipv4 p m)
unfolding copy_ipv4
copy_ipv4-IsCopy =
    copy_field-IsCopy ipv4_in ipv4 (λ a. refl) (ipv4 zero_ipv4) ipv4_deep_copy_into read_ipv4
      ipv4_deep_copy_into-Builds

copy_typha-IsCopy :
    (n : ℕ) (m : Memory) (p : Option Ptr) (v : Option Types.Typha)
    → n ≤ length m
    → Own 0 m (typha_at p) v
    → IsCopy n m typha_at v (copy_field (typha zero_typha) copy_typha p m)
unfolding copy_typha
copy_typha-IsCopy =
    copy_field-IsCopy typha_in typha (λ a. refl) (typha zero_typha) pure read_typha
      (λ n m s v h own. IsCopy-pure n m read_typha v s (λ o agree. own m (Agree-refl 0 m)))

network_config_deep_copy_into-Builds : Builds read_network_config network_config_deep_copy_into
unfolding network_config_deep_copy_into
network_config_deep_copy_into-Builds n m s v h own =
    let field =
      λ (o : Memory) (agree : Agree 0 m o). read_network_config-eq-some s o (own o agree) in
    let x = Extends-refl m in
    let a = IsCopy-later copy_text-IsCopy h x s.backend v.backend (λ o agree. (field o agree).1) in
    let x = Extends-trans x a.kept in
    let b = IsCopy-later copy_ipam-IsCopy h x s.ipam v.ipam (λ o agree. (field o agree).2) in
    let x = Extends-trans x b.kept in
    let c = IsCopy-later copy_ipv4-IsCopy h x s.ipv4 v.ipv4 (λ o agree. (field o agree).3) in
    let x = Extends-trans x c.kept in
    let d = IsCopy-later copy_typha-IsCopy h x s.typha v.typha (λ o agree. (field o agree).4) in
    let x = Extends-trans x d.kept in
    let e =
      IsCopy-later copy_text-IsCopy h x s.veth_mtu v.veth_mtu (λ o agree. (field o agree).5) in
    let x = Extends-trans x e.kept in
    let f = IsCopy-later copy_text-IsCopy h x s.ipip v.ipip (λ o agree. (field o agree).6) in
    let x = Extends-trans x f.kept in
    let g =
      IsCopy-later copy_text-IsCopy h x s.ip_auto_detection_method v.ip_auto_detection_method
        (λ o agree. (field o agree).7) in
    let x = Extends-trans x g.kept in
    let z₆ = g.kept in
    let z₅ = Extends-trans f.kept z₆ in
    let z₄ = Extends-trans e.kept z₅ in
    let z₃ = Extends-trans d.kept z₄ in
    let z₂ = Extends-trans c.kept z₃ in
    let z₁ = Extends-trans b.kept z₂ in
    record {
      out = record {
        type_meta = s.type_meta;
        backend = a.out;
        ipam = b.out;
        ipv4 = c.out;
        typha = d.out;
        veth_mtu = e.out;
        ipip = f.out;
        ip_auto_detection_method = g.out;
      };
      after = g.after;
      returns = rw (a.returns, b.returns, c.returns, d.returns, e.returns, f.returns, g.returns);
      kept = x;
      owned = λ o agree.
          read_network_config-some _ o v (field m (Agree-refl 0 m)).0
            (Own-extends (text_at a.out) a.owned z₁ o agree)
            (Own-extends (ipam_at b.out) b.owned z₂ o agree)
            (Own-extends (ipv4_at c.out) c.owned z₃ o agree)
            (Own-extends (typha_at d.out) d.owned z₄ o agree)
            (Own-extends (text_at e.out) e.owned z₅ o agree)
            (Own-extends (text_at f.out) f.owned z₆ o agree) (g.owned o agree);
    }

-- Where a pointer, nil or not, reads as `v`, its deep copy returns; every cell that was there is
-- as before; and the copy reads as `v`, in every memory too that has the cells the copy added,
-- whatever its older cells hold then.
pub network_config_deep_copy-IsCopy :
    (m : Memory) (p : Option Ptr) (v : Option NetworkConfig)
    → network_config_at p m ≡ some v
    → IsCopy (length m) m network_config_at v (network_config_deep_copy p m)
unfolding network_config_deep_copy copy_network_config
network_config_deep_copy-IsCopy m p v h =
    copy_field-IsCopy network_config_in network_config (λ a. refl)
      (network_config zero_network_config) network_config_deep_copy_into read_network_config
      network_config_deep_copy_into-Builds (length m) m p v (omega arith)
      (field-Stable network_config_in read_network_config read_network_config-Stable p m v h)

-- The copy as a `runtime.Object` is the same.
pub network_config_deep_copy_object-IsCopy :
    (m : Memory) (p : Option Ptr) (v : Option NetworkConfig)
    → network_config_at p m ≡ some v
    → IsCopy (length m) m network_config_at v (network_config_deep_copy_object p m)
unfolding network_config_deep_copy_object
network_config_deep_copy_object-IsCopy m p v h =
    let r = network_config_deep_copy-IsCopy m p v h in
    record { out = r.out; after = r.after; returns = rw r.returns; kept = r.kept; owned = r.owned }

abbrev pub network_status_at : Option Ptr → Memory → Option (Option NetworkStatus)
network_status_at = optional (through network_status_in read_network_status)

-- The same of a `NetworkStatus`: its deep copy reads as the value of the original, in a cell of its
-- own, and the cells that were there are as before.
pub network_status_deep_copy-IsCopy :
    (m : Memory) (p : Option Ptr) (v : Option NetworkStatus)
    → network_status_at p m ≡ some v
    → IsCopy (length m) m network_status_at v (network_status_deep_copy p m)
unfolding network_status_deep_copy copy_network_status
network_status_deep_copy-IsCopy m p v h =
    copy_field-IsCopy network_status_in network_status (λ a. refl)
      (network_status zero_network_status) pure read_network_status
      (λ n m s v h own. IsCopy-pure n m read_network_status v s (λ o agree. own m (Agree-refl 0 m)))
      (length m) m p v (omega arith)
      (field-Stable network_status_in read_network_status (λ s m v h o agree. h) p m v h)
