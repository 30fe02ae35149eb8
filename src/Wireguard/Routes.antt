-- ===== src/Wireguard/Routes.antt =====
-- src/daemon/wireguard/model.rs: the keys and the host routes of the peers that `Interface::normalize` accepts.
use asc_daemon.Prelude.{
  ◌≡◌, refl, Bool, true, false, not, Text, List, [], ◌∷◌, ◌++◌, text_eq_sym, map, retain, member,
  Single, All, All-append, arith,
}
use asc_daemon.Failure.{
  internal, guard, ◌>>◌, Holds, Holds-bind, Holds-map, Holds-guard, Holds-trivial,
}
use asc_daemon.Net.{IpText}
use asc_daemon.Wireguard.Peers.{Peer, Interface}
use asc_daemon.Wireguard.Check.{normalize_nets, normalize_peer}
use asc_daemon.Wireguard.Normalize.{
  is_host_route, add_hosts, normalize_peers, check_identity, check_settings, canonical,
  normalize_interface,
}

abbrev Avoids : List Text → List Text → Type 0
Avoids seen l = All (λ x. member x seen ≡ false) l

Avoids-head : (k : Text) (seen l : List Text) → Avoids (k ∷ seen) l → member k l ≡ false
Avoids-head k seen [] a = refl
Avoids-head k seen (x ∷ l) a = ground (arith, a.0, text_eq_sym k x, Avoids-head k seen l a.1)

Avoids-tail : (k : Text) (seen l : List Text) → Avoids (k ∷ seen) l → Avoids seen l
Avoids-tail k seen [] a = tt
Avoids-tail k seen (x ∷ l) a = (ground (arith, a.0), Avoids-tail k seen l a.1)

member-append :
    (x : Text) (a b : List Text)
    → member x a ≡ false
    → member x b ≡ false
    → member x (a ++ b) ≡ false
member-append x [] b h k = k
member-append x (y ∷ a) b h k = ground (arith, member-append x a b (ground arith) k)

Single-append : (a b : List Text) → Single a → Single b → Avoids b a → Single (a ++ b)
Single-append [] b s t h = t
Single-append (x ∷ a) b s t h = (member-append x a b s.0 h.0, Single-append a b s.1 t h.1)

abbrev pub keys_of : List Peer → List Text
keys_of = map (λ (p : Peer). p.public_key)

module _ (ip : IpText) where
  -- the host routes of peers, one after the other
  abbrev pub hosts_of : List Peer → List Text
  hosts_of [] = []
  hosts_of (p ∷ peers) = retain (is_host_route ip) p.allowed_ips ++ hosts_of peers

  -- The host routes are new, and what avoids the hosts after them avoids them too.
  record Added (hosts routes taken : List Text) : Type 0 where
    single : Single (retain (is_host_route ip) routes)
    new : Avoids hosts (retain (is_host_route ip) routes)
    before : (l : List Text) → Avoids taken l → Avoids hosts l
    apart : (l : List Text) → Avoids taken l → Avoids l (retain (is_host_route ip) routes)

  skip_route :
      (hosts : List Text) (route : Text) (routes : List Text)
      → is_host_route ip route ≡ false
      → (taken : List Text) → Added hosts routes taken
      → Added hosts (route ∷ routes) taken
  skip_route hosts route routes e taken a = record {
    single = rw e a.single;
    new = rw e a.new;
    before = a.before;
    apart = λ l av. rw e (a.apart l av);
  }

  take_route :
      (hosts : List Text) (route : Text) (routes : List Text)
      → is_host_route ip route ≡ true
      → member route hosts ≡ false
      → (taken : List Text) → Added (route ∷ hosts) routes taken
      → Added hosts (route ∷ routes) taken
  take_route hosts route routes e n taken a =
      let found = retain (is_host_route ip) routes in
      record {
        single = rw e (Avoids-head route hosts found a.new, a.single);
        new = rw e (n, Avoids-tail route hosts found a.new);
        before = λ l av. Avoids-tail route hosts l (a.before l av);
        apart = λ l av. rw e (Avoids-head route hosts l (a.before l av), a.apart l av);
      }

  add_hosts-Added :
      (hosts routes : List Text) → Holds (Added hosts routes) (add_hosts ip hosts routes)
  unfolding add_hosts
  add_hosts-Added hosts [] = record { single = tt; new = tt; before = λ l a. a; apart = λ l a. tt }
  add_hosts-Added hosts (route ∷ routes) =
      go (is_host_route ip route) refl (add_hosts-Added hosts routes)
        (add_hosts-Added (route ∷ hosts) routes)
    where
      go :
          (b : Bool)
          → is_host_route ip route ≡ b
          → Holds (Added hosts routes) (add_hosts ip hosts routes)
          → Holds (Added (route ∷ hosts) routes) (add_hosts ip (route ∷ hosts) routes)
          → Holds (Added hosts (route ∷ routes)) (elim b [
            | false ↦ add_hosts ip hosts routes
            | true ↦
                guard (not (member route hosts)) internal >> add_hosts ip (route ∷ hosts) routes
          ])
      go false e skip take =
          Holds-map _ _ (add_hosts ip hosts routes) (skip_route hosts route routes e) skip
      go true e skip take = Holds-guard _ (not (member route hosts)) internal _ λ n.
          Holds-map _ _ (add_hosts ip (route ∷ hosts) routes)
            (take_route hosts route routes e (ground arith)) take

  -- No key and no host route is there twice, and none of those that came before.
  record Separate (keys hosts : List Text) (peers : List Peer) : Type 0 where
    single_keys : Single (keys_of peers)
    new_keys : Avoids keys (keys_of peers)
    single_hosts : Single (hosts_of peers)
    new_hosts : Avoids hosts (hosts_of peers)

  cons_Separate :
      (keys hosts taken : List Text) (q : Peer) (rest : List Peer)
      → member q.public_key keys ≡ false
      → Added hosts q.allowed_ips taken
      → Separate (q.public_key ∷ keys) taken rest
      → Separate keys hosts (q ∷ rest)
  cons_Separate keys hosts taken q rest n a s =
      let found = retain (is_host_route ip) q.allowed_ips in
      record {
        single_keys = (Avoids-head q.public_key keys (keys_of rest) s.new_keys, s.single_keys);
        new_keys = (n, Avoids-tail q.public_key keys (keys_of rest) s.new_keys);
        single_hosts =
            Single-append found (hosts_of rest) a.single s.single_hosts
              (a.apart (hosts_of rest) s.new_hosts);
        new_hosts =
            All-append (λ x. member x hosts ≡ false) found (hosts_of rest) a.new
              (a.before (hosts_of rest) s.new_hosts);
      }

  normalize_peers-Separate :
      (keys hosts : List Text) (peers : List Peer)
      → Holds (Separate keys hosts) (normalize_peers ip keys hosts peers)
  unfolding normalize_peers
  normalize_peers-Separate keys hosts [] = record {
    single_keys = tt;
    new_keys = tt;
    single_hosts = tt;
    new_hosts = tt;
  }
  normalize_peers-Separate keys hosts (p ∷ peers) =
      Holds-bind (λ _. Unit {0}) _ (normalize_peer ip p) _ (Holds-trivial (normalize_peer ip p))
        λ q _. Holds-guard _ (not (member q.public_key keys)) internal _ λ n.
          Holds-bind (Added hosts q.allowed_ips) _ (add_hosts ip hosts q.allowed_ips) _
            (add_hosts-Added hosts q.allowed_ips)
            λ taken a.
              Holds-bind (Separate (q.public_key ∷ keys) taken) _
                (normalize_peers ip (q.public_key ∷ keys) taken peers) _
                (normalize_peers-Separate (q.public_key ∷ keys) taken peers)
                λ rest s. cons_Separate keys hosts taken q rest (ground arith) a s

  abbrev SinglePeers : Interface → Type 0
  SinglePeers i = Single (keys_of i.peers) × Single (hosts_of i.peers)

  -- Where `normalize` accepts an interface, no two of its peers have one public key, and no host route is there twice, in one peer
  -- or in two.
  pub normalize_interface-Single :
      (i : Interface)
      → Holds
          (λ (n : Interface). Single (keys_of n.peers) × Single (hosts_of n.peers))
          (normalize_interface ip i)
  unfolding normalize_interface canonical
  normalize_interface-Single i =
      let Q = SinglePeers in
      let nets = normalize_nets ip i.addresses in
      let checked = normalize_peers ip [] [] i.peers in
      Holds-bind (λ _. Unit {0}) Q (check_identity i) _ (Holds-trivial (check_identity i))
        λ _ _.
          Holds-bind (λ _. Unit {0}) Q nets _ (Holds-trivial nets)
            λ addresses _.
              let settings = check_settings ip i addresses in
              Holds-bind (λ _. Unit {0}) Q settings _ (Holds-trivial settings)
                λ _ _.
                  Holds-bind (Separate [] []) Q checked _ (normalize_peers-Separate [] [] i.peers)
                    λ peers s. (s.single_keys, s.single_hosts)
