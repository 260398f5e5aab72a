-- ===== src/Webhook/Tests.antt =====
-- Runs of the webhook route, and the theorems at concrete inputs.
use cicd.Prelude.{
  ◌≡◌, ◌⊎◌, refl, true, false, none, some, pos, ◌++◌, [], ◌∷◌, Text, codes, same, text_discrete,
  find, nil-ne-cons, if◌then◌else◌,
}
use cicd.Config.{Config}
use cicd.History.{no_history}
use cicd.Projects.{get_project_by_repo_url, new_project}
use cicd.Projects.ToConfig.{to_config}
use cicd.Webhook.{
  WebhookData, Request, Gateway, Library, pong, unauthorized, initiated, branch_mismatch,
  handle_webhook,
}
use cicd.Webhook.Gate.{IsTrusted, Dispatches, handle_unsigned, handle_deploys}

abbrev site : Config
site = record {
  setup = [];
  repo_url = codes "https://example.org/site";
  branch = codes "main";
  admin_email = [];
  mongo_db_uri = [];
  git_username = [];
  git_password = [];
  smtp_host = [];
  smtp_port = pos 587;
  smtp_user = [];
  smtp_pass = [];
  user = [];
  sudo_pass = [];
  service_name = codes "site";
  service_dir = codes "/srv/site";
  service_user = codes "www";
  service_reset = [];
  webhook = pos 9641;
  webhook_secret = [];
  public_ip = [];
  notify_url = [];
  deploy_timeout = pos 1800;
  skip_install_hash = false;
}

-- A stand-in for HMAC that joins its arguments, and a parser that knows one event.
abbrev lib : Library
lib = record {
  hmac = λ secret body. secret ++ body;
  parse = λ body. some (record {
    hash = codes "1111111111";
    branch = codes "refs/heads/" ++ body;
    repo = codes "https://example.org/site";
    commit_msg = codes "m";
  });
}

abbrev gateway : Gateway
gateway = record {
  projects = record { rows = new_project 1 site ∷ []; next_id = 2 };
  history = no_history;
  settings = none;
  queues = λ dir. none;
  fleet = [];
}

abbrev push_to : Text → Request
push_to branch = record {
  event = codes "push";
  signature = codes "sha256=s" ++ branch;
  body = branch;
}

abbrev unsigned_push : Request
unsigned_push = record (push_to (codes "main")) { signature = [] }

-- A signed push to the watched branch is deployed; one to another branch is not.
deployed : (handle_webhook lib (codes "s") true 5 (push_to (codes "main")) gateway).1 ≡ initiated
unfolding handle_webhook text_discrete find get_project_by_repo_url to_config
deployed = refl

other_branch :
    handle_webhook lib (codes "s") true 5 (push_to (codes "dev")) gateway
    ≡ (gateway, branch_mismatch)
unfolding handle_webhook text_discrete find get_project_by_repo_url
other_branch = refl

handle_unsigned_example :
    handle_webhook lib (codes "s") true 5 unsigned_push gateway
    ≡ (gateway, if same unsigned_push.event (codes "ping") then pong else unauthorized)
handle_unsigned_example =
    handle_unsigned lib (codes "s") true 5 unsigned_push gateway refl nil-ne-cons

handle_deploys_example :
    ((handle_webhook lib (codes "s") true 5 (push_to (codes "main")) gateway).0.queues
      ≡ gateway.queues)
    ⊎ (IsTrusted lib (codes "s") (push_to (codes "main"))
        × ((d : WebhookData) × (lib.parse (codes "main") ≡ some d)
            × Dispatches d gateway
                (handle_webhook lib (codes "s") true 5 (push_to (codes "main")) gateway).0))
handle_deploys_example = handle_deploys lib (codes "s") true 5 (push_to (codes "main")) gateway
