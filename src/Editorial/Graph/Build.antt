-- ===== src/Editorial/Graph/Build.antt =====
-- What graph the edges make: its neighbors are the edges, and all of them are nodes of it.
use snc_platform.Prelude.{
  String, ◌≡◌, refl, sym, ap, ◌∙◌, inl, inr, Bool, true, false, List, [], ◌∷◌, ◌++◌, ◌||◌, ◌&&◌,
  str_eq, str_eq_iff, str_eq_refl, Bool-cases, arith,
}
use snc_platform.Prelude.Maps.{str_eq_sym}
use snc_platform.Editorial.Graph.{
  ChannelSourceEdge, Graph, mem, keys, neighbors, push_neighbor, ensure_node, add_edge, build,
}
use snc_platform.Editorial.Graph.Search.{IsClosed, mem-snoc}

-- One of the edges leads from u to v.
abbrev pub has_edge : List ChannelSourceEdge → String → String → Bool
has_edge [] u v = false
has_edge (e ∷ es) u v = (str_eq e.channel_id u && str_eq e.source_channel_id v) || has_edge es u v

mem-neighbors-push_neighbor :
    (a b : String) (g : Graph) (u v : String)
    → mem (neighbors (push_neighbor a b g) u) v
      ≡ (mem (neighbors g u) v || (str_eq a u && str_eq b v))
unfolding push_neighbor neighbors
mem-neighbors-push_neighbor a b [] u v = ground arith
mem-neighbors-push_neighbor a b ((k, vs) ∷ g) u v = elim (Bool-cases (str_eq k a)) [
  | inl same ↦ rw ((str_eq_iff k a).0 same, str_eq_refl a) (ground (arith, mem-snoc vs b v))
  | inr other ↦ elim (Bool-cases (str_eq k u)) [
    | inl here ↦
        rw (other, here, str_eq_sym a u, sym ((str_eq_iff k u).0 here), other)
          (false_right (mem vs v))
    | inr later ↦ rw (other, later) (mem-neighbors-push_neighbor a b g u v)
  ]
]
  where
    false_right : (c : Bool) → c ≡ (c || false)
    false_right c = ground arith

neighbors-snoc : (g : Graph) (x u : String) → neighbors (g ++ (x, []) ∷ []) u ≡ neighbors g u
unfolding neighbors
neighbors-snoc [] x u = ground arith
neighbors-snoc ((k, vs) ∷ g) x u = ground (arith, neighbors-snoc g x u)

neighbors-ensure_node :
    (x : String) (g : Graph) (u : String) → neighbors (ensure_node x g) u ≡ neighbors g u
unfolding ensure_node
neighbors-ensure_node x g u = ground (arith, neighbors-snoc g x u)

mem-neighbors-add_edge :
    (e : ChannelSourceEdge) (g : Graph) (u v : String)
    → mem (neighbors (add_edge e g) u) v
      ≡ (mem (neighbors g u) v || (str_eq e.channel_id u && str_eq e.source_channel_id v))
unfolding add_edge
mem-neighbors-add_edge e g u v =
    ap (λ z. mem z v)
      (neighbors-ensure_node e.source_channel_id (push_neighbor e.channel_id e.source_channel_id g)
        u)
    ∙ mem-neighbors-push_neighbor e.channel_id e.source_channel_id g u v

pub mem-neighbors-build :
    (es : List ChannelSourceEdge) (g : Graph) (u v : String)
    → mem (neighbors (build es g) u) v ≡ (mem (neighbors g u) v || has_edge es u v)
unfolding build
mem-neighbors-build [] g u v = ground arith
mem-neighbors-build (e ∷ es) g u v =
    mem-neighbors-build es (add_edge e g) u v
    ∙ ap (λ z. z || has_edge es u v) (mem-neighbors-add_edge e g u v)
    ∙ assoc (mem (neighbors g u) v) (str_eq e.channel_id u && str_eq e.source_channel_id v)
        (has_edge es u v)
  where
    assoc : (a b c : Bool) → ((a || b) || c) ≡ (a || (b || c))
    assoc a b c = ground arith

keys-push_neighbor :
    (a b : String) (g : Graph) (x : String)
    → mem (keys g) x ≡ true
    → mem (keys (push_neighbor a b g)) x ≡ true
unfolding push_neighbor
keys-push_neighbor a b [] x m = cc m
keys-push_neighbor a b ((k, vs) ∷ g) x m = elim (Bool-cases (str_eq k a)) [
  | inl same ↦ rw same m
  | inr other ↦ rw other (ground (arith, m, keys-push_neighbor a b g x))
]

keys-snoc :
    (g : Graph) (y x : String) → mem (keys (g ++ (y, []) ∷ [])) x ≡ (mem (keys g) x || str_eq y x)
keys-snoc [] y x = ground arith
keys-snoc ((k, vs) ∷ g) y x = ground (arith, keys-snoc g y x)

keys-ensure_node :
    (y : String) (g : Graph) (x : String)
    → mem (keys (ensure_node y g)) x ≡ (mem (keys g) x || str_eq y x)
unfolding ensure_node
keys-ensure_node y g x = elim (Bool-cases (mem (keys g) y)) [
  | inl m ↦ elim (Bool-cases (str_eq y x)) [
    | inl same ↦ rw (m, same, sym ((str_eq_iff y x).0 same), m) refl
    | inr other ↦ rw (m, other) (false_right (mem (keys g) x))
  ]
  | inr m ↦ rw m (keys-snoc g y x)
]
  where
    false_right : (c : Bool) → c ≡ (c || false)
    false_right c = ground arith

add_edge-IsClosed : (e : ChannelSourceEdge) (g : Graph) → IsClosed g → IsClosed (add_edge e g)
unfolding add_edge
add_edge-IsClosed e g closed u v edge =
    keys-ensure_node e.source_channel_id (push_neighbor e.channel_id e.source_channel_id g) v
    ∙ ground (
      arith,
      mem-neighbors-add_edge e g u v,
      closed u v,
      keys-push_neighbor e.channel_id e.source_channel_id g v,
      edge,
    )

pub build-IsClosed : (es : List ChannelSourceEdge) (g : Graph) → IsClosed g → IsClosed (build es g)
unfolding build
build-IsClosed [] g closed = closed
build-IsClosed (e ∷ es) g closed = build-IsClosed es (add_edge e g) (add_edge-IsClosed e g closed)
