-- ===== src/Webhook/Gate.antt =====
-- When a webhook has an effect.
use cicd.Prelude.{
  ℕ, ◌≡◌, ◌⊎◌, ◌≢◌, inl, inr, refl, sym, ap, Bool, true, false, not, ◌&&◌, ◌||◌, Option, none, some,
  [], ◌∷◌, ◌++◌, arith, Text, codes, same, same_ne, Bool-cases, is_empty, is_set, if◌then◌else◌,
}
use mathlib.Core.Path.{subst}
use cicd.Config.{Config}
use cicd.Queue.Store.{enqueue_deployment}
use cicd.Projects.{Project, get_project_by_repo_url}
use cicd.Projects.ToConfig.{Outcome, config, lacks, to_config}
use cicd.Webhook.{
  WebhookData, Request, Gateway, Response, missing_repository, branch_mismatch, no_commit_hash,
  pong, unauthorized, Library, verify_signature, watched, accept, configure, route, receive,
  handle_webhook,
}

module _ (g : Gateway) (after : Gateway × Response) where
  abbrev gated : Bool → Bool → Gateway × Response
  gated ping signed = if ping then (g, pong) else if not signed then (g, unauthorized) else after

  gated-unsigned :
      (ping signed : Bool)
      → signed ≡ false
      → gated ping signed ≡ (g, if ping then pong else unauthorized)
  gated-unsigned true signed h = refl
  gated-unsigned false true h = cc
  gated-unsigned false false h = refl

unsigned :
    (lib : Library) (secret : Text) (r : Request)
    → is_set secret ≡ true
    → r.signature ≢ codes "sha256=" ++ lib.hmac secret r.body
    → verify_signature lib secret r ≡ false
unfolding verify_signature
unsigned lib secret r s ne =
    let other = same_ne r.signature (codes "sha256=" ++ lib.hmac secret r.body) ne in
    both secret (not (is_empty r.signature)) s other
  where
    both :
        (t : Text) (b : Bool) {c : Bool}
        → is_set t ≡ true
        → c ≡ false
        → (is_empty t || (b && c)) ≡ false
    both [] b h e = cc
    both (x ∷ t) true h e = e
    both (x ∷ t) false h e = refl

-- With a secret, a request whose signature is not the HMAC of its body changes nothing; it is
-- answered by 401, or by a pong if it is a ping.
pub handle_unsigned :
    (lib : Library) (secret : Text) (records : Bool) (now : ℕ) (r : Request) (g : Gateway)
    → is_set secret ≡ true
    → r.signature ≢ codes "sha256=" ++ lib.hmac secret r.body
    → handle_webhook lib secret records now r g
      ≡ (g, if same r.event (codes "ping") then pong else unauthorized)
unfolding handle_webhook
handle_unsigned lib secret records now r g s ne =
    gated-unsigned g (receive records now (lib.parse r.body) g) (same r.event (codes "ping"))
      (verify_signature lib secret r) (unsigned lib secret r s ne)

-- A deployment was handed to the queue: for a project that is registered for the repository, not
-- pinned, and watches the branch, with its own configuration, which names no MongoDB.
pub record Dispatches (d : WebhookData) (g after : Gateway) : Type 0 where
  pub project : Project
  pub cfg : Config
  pub registered : get_project_by_repo_url d.repo g.projects ≡ some project
  pub branch : d.branch ≡ watched project
  pub unpinned : project.is_pinned ≡ false
  pub hash : is_empty d.hash ≡ false
  pub configured : to_config g.settings project ≡ config cfg
  pub local : is_empty cfg.mongo_db_uri ≡ true
  pub queued : after.queues ≡ (enqueue_deployment cfg d.hash d.commit_msg g.queues).0

accepted :
    (records : Bool) (now : ℕ) (d : WebhookData) (p : Project) (cfg : Config) (g : Gateway)
    → ((accept records now d p cfg g).0.queues ≡ g.queues)
      ⊎ ((p.is_pinned ≡ false)
          × (is_empty cfg.mongo_db_uri ≡ true)
          × ((accept records now d p cfg g).0.queues
              ≡ (enqueue_deployment cfg d.hash d.commit_msg g.queues).0))
unfolding accept
accepted records now d p cfg g = elim (Bool-cases p.is_pinned) [
  | inl e ↦ inl (ground arith)
  | inr e ↦ elim (Bool-cases (is_empty cfg.mongo_db_uri)) [
    | inl m ↦ inr (e, m, ground arith)
    | inr m ↦ inl (ground arith)
  ]
]

configured_or_not :
    (records : Bool) (now : ℕ) (d : WebhookData) (p : Project) (g : Gateway) (o : Outcome)
    → get_project_by_repo_url d.repo g.projects ≡ some p
    → d.branch ≡ watched p
    → is_empty d.hash ≡ false
    → to_config g.settings p ≡ o
    → ((configure records now d p o g).0.queues ≡ g.queues)
      ⊎ Dispatches d g (configure records now d p o g).0
unfolding configure
configured_or_not records now d p g (lacks fs) f b h e = inl refl
configured_or_not records now d p g (config cfg) f b h e = elim (accepted records now d p cfg g) [
  | inl q ↦ inl q
  | inr (u, m, q) ↦ inr (record {
    project = p;
    cfg = cfg;
    registered = f;
    branch = b;
    unpinned = u;
    hash = h;
    configured = e;
    local = m;
    queued = q;
  })
]

module _ (records : Bool) (now : ℕ) (d : WebhookData) (p : Project) (g : Gateway) where
  routed :
      (b h : Bool)
      → same d.branch (watched p) ≡ b
      → is_empty d.hash ≡ h
      → get_project_by_repo_url d.repo g.projects ≡ some p
      → (after : Gateway × Response)
      → after ≡ (
          if not b
          then (g, branch_mismatch)
          else if h
          then (g, no_commit_hash)
          else configure records now d p (to_config g.settings p) g)
      → (after.0.queues ≡ g.queues) ⊎ Dispatches d g after.0
  routed false h eb eh f after e = inl (ap (λ v. v.0.queues) e)
  routed true true eb eh f after e = inl (ap (λ v. v.0.queues) e)
  routed true false eb eh f after e =
      subst (λ v. (v.0.queues ≡ g.queues) ⊎ Dispatches d g v.0) (sym e)
        (configured_or_not records now d p g (to_config g.settings p) f (ground arith) eh refl)

routed-lookup :
    (records : Bool) (now : ℕ) (d : WebhookData) (g : Gateway) (o : Option Project)
    → get_project_by_repo_url d.repo g.projects ≡ o
    → ((route records now d o g).0.queues ≡ g.queues) ⊎ Dispatches d g (route records now d o g).0
unfolding route
routed-lookup records now d g none f = inl refl
routed-lookup records now d g (some p) f =
    routed records now d p g (same d.branch (watched p)) (is_empty d.hash) refl refl f
      (route records now d (some p) g) refl

received :
    (records : Bool) (now : ℕ) (d : WebhookData) (g : Gateway) (b : Bool)
    (after : Gateway × Response)
    → after ≡ (
        if b
        then (g, missing_repository)
        else route records now d (get_project_by_repo_url d.repo g.projects) g)
    → (after.0.queues ≡ g.queues) ⊎ Dispatches d g after.0
received records now d g true after e = inl (ap (λ v. v.0.queues) e)
received records now d g false after e =
    subst (λ v. (v.0.queues ≡ g.queues) ⊎ Dispatches d g v.0) (sym e)
      (routed-lookup records now d g (get_project_by_repo_url d.repo g.projects) refl)

-- No secret is set, or the signature is the HMAC of the body.
abbrev pub IsTrusted : Library → Text → Request → Type 0
IsTrusted lib secret r =
    (is_empty secret ≡ true) ⊎ (r.signature ≡ codes "sha256=" ++ lib.hmac secret r.body)

verified :
    (lib : Library) (secret : Text) (r : Request)
    → verify_signature lib secret r ≡ true
    → IsTrusted lib secret r
unfolding verify_signature
verified lib secret r v = elim (Bool-cases (is_empty secret)) [
  | inl e ↦ inl e
  | inr e ↦ inr (ground (arith, v, e))
]

-- A webhook leaves every queue as it was, or its signature is the HMAC of its body or no secret is set,
-- its body is a push event, and it hands its commit to the queue for a project that is registered for the
-- repository, watches the branch, is not pinned and has no MongoDB.
pub handle_deploys :
    (lib : Library) (secret : Text) (records : Bool) (now : ℕ) (r : Request) (g : Gateway)
    → ((handle_webhook lib secret records now r g).0.queues ≡ g.queues)
      ⊎ (IsTrusted lib secret r
          × ((d : WebhookData) × (lib.parse r.body ≡ some d)
              × Dispatches d g (handle_webhook lib secret records now r g).0))
unfolding handle_webhook receive
handle_deploys lib secret records now r g =
    gate (same r.event (codes "ping")) (verify_signature lib secret r) (lib.parse r.body) refl
      (handle_webhook lib secret records now r g) refl refl
  where
    gate :
        (ping signed : Bool) (o : Option WebhookData)
        → lib.parse r.body ≡ o
        → (after : Gateway × Response) → after ≡ gated g (receive records now o g) ping signed
        → verify_signature lib secret r ≡ signed
        → (after.0.queues ≡ g.queues)
          ⊎ (IsTrusted lib secret r
              × ((d : WebhookData) × (lib.parse r.body ≡ some d) × Dispatches d g after.0))
    gate true signed o f after e v = inl (ap (λ w. w.0.queues) e)
    gate false false o f after e v = inl (ap (λ w. w.0.queues) e)
    gate false true none f after e v = inl (ap (λ w. w.0.queues) e)
    gate false true (some d) f after e v =
        elim (received records now d g (is_empty d.repo) after e) [
          | inl q ↦ inl q
          | inr q ↦ inr (verified lib secret r v, (d, f, q))
        ]
