-- ===== src/Webhook.antt =====
-- The webhook route of the gateway (gosrc/api/server.go: the handler of POST /, verifySignature,
-- parseWebhookPayload). HMAC and the JSON parser are parameters; the parser's `MustParse` panics on a
-- body that is no JSON.
pub mod Gate
mod Tests
use cicd.Prelude.{
  ℕ, Bool, true, false, not, ◌&&◌, ◌||◌, Option, none, some, List, [], ◌∷◌, ◌++◌, Text, codes, same,
  is_empty, ltb, length, if◌then◌else◌,
}
use cicd.Config.{Config}
use cicd.Settings.{Settings}
use cicd.History.{History, webhook, add_commit_to_history}
use cicd.Projects.{Project, Projects, get_project_by_repo_url, update_last_commit_info}
use cicd.Projects.ToConfig.{Outcome, config, lacks, to_config}
use cicd.Queue.Store.{Queues, enqueue_deployment}

pub record WebhookData : Type 0 where
  pub hash : Text
  pub branch : Text
  pub repo : Text
  pub commit_msg : Text

pub record Request : Type 0 where
  pub event : Text  -- the header X-Github-Event
  pub signature : Text  -- the header X-Hub-Signature-256
  pub body : Text

pub record Gateway : Type 0 where
  pub projects : Projects
  pub history : History
  pub settings : Option Settings
  pub queues : Queues
  pub fleet : List Text  -- the commits handed to MongoDB

pub data Response : Type 0 where
  pong unauthorized missing_repository not_registered branch_mismatch no_commit_hash : Response
  config_error pinned initiated panicked : Response

-- What the libraries compute: the hex digits of the HMAC, and the four fields of a push event.
pub record Library : Type 0 where
  pub hmac : Text → Text → Text
  pub parse : Text → Option WebhookData

-- `verifySignature` returns nil.
unfoldable pub verify_signature : Library → Text → Request → Bool
verify_signature lib secret r =
    is_empty secret
    || (not (is_empty r.signature) && same r.signature (codes "sha256=" ++ lib.hmac secret r.body))

abbrev pub watched : Project → Text
watched p = codes "refs/heads/" ++ p.branch

-- `hash[:8]` in the last log line
abbrev logged : Text → Response → Response
logged hash r = if ltb (length hash) 8 then panicked else r

abbrev noted : WebhookData → Project → Gateway → Gateway
noted d p g = record g {
  projects = (update_last_commit_info true p.service_dir d.hash d.commit_msg g.projects).0;
}

-- Steps 4 to 6, for the project and its configuration.
unfoldable pub accept : Bool → ℕ → WebhookData → Project → Config → Gateway → Gateway × Response
accept records now d p cfg g =
    if p.is_pinned
    then (
      record (noted d p g) {
        history = (add_commit_to_history records now p.id d.hash d.commit_msg webhook g.history).0;
      },
      logged d.hash pinned,
    )
    else if is_empty cfg.mongo_db_uri
    then (
      record (noted d p g) { queues = (enqueue_deployment cfg d.hash d.commit_msg g.queues).0 },
      logged d.hash initiated,
    )
    else (record (noted d p g) { fleet = d.hash ∷ g.fleet }, logged d.hash initiated)

unfoldable pub configure : Bool → ℕ → WebhookData → Project → Outcome → Gateway → Gateway × Response
unfolding accept
configure records now d p (lacks fs) g = (g, config_error)
configure records now d p (config cfg) g = accept records now d p cfg g

-- Steps 2 and 3: the project of the repository, its branch, and the hash.
unfoldable pub route : Bool → ℕ → WebhookData → Option Project → Gateway → Gateway × Response
unfolding configure
route records now d none g = (g, not_registered)
route records now d (some p) g =
    if not (same d.branch (watched p))
    then (g, branch_mismatch)
    else if is_empty d.hash
    then (g, no_commit_hash)
    else configure records now d p (to_config g.settings p) g

unfoldable pub receive : Bool → ℕ → Option WebhookData → Gateway → Gateway × Response
unfolding route
receive records now none g = (g, panicked)
receive records now (some d) g =
    if is_empty d.repo
    then (g, missing_repository)
    else route records now d (get_project_by_repo_url d.repo g.projects) g

-- The handler of `POST /`, for the gateway's secret.
unfoldable pub handle_webhook : Library → Text → Bool → ℕ → Request → Gateway → Gateway × Response
unfolding verify_signature receive
handle_webhook lib secret records now r g =
    if same r.event (codes "ping")
    then (g, pong)
    else if not (verify_signature lib secret r)
    then (g, unauthorized)
    else receive records now (lib.parse r.body) g
