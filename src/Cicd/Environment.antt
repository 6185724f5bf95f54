-- ===== src/Cicd/Environment.antt =====
-- internal/cicd/gates.go: DetectEnvironment and GetCIInfo. The environment's variables are a
-- function from their names to their values, empty if a variable is not set.
use redis_meter.Base.{Bool, not, [], ◌++◌, String, ltb, if◌then◌else◌, length, take}
use redis_meter.Base.Text.{Text, codes, text_eq, is_empty}

pub data Environment : Type 0 where
  github gitlab jenkins circle_ci azure_dev_ops unknown local : Environment

pub record CiInfo : Type 0 where
  pub environment : Environment
  pub branch : Text
  pub commit : Text
  pub commit_short : Text
  pub build_number : Text
  pub build_url : Text
  pub repository : Text
  pub pull_request : Text
  pub author : Text
  pub message : Text

-- `info.Commit[:7]` if the commit is longer, and else nothing.
unfoldable pub short_commit : Text → Text
short_commit commit = if ltb 7 (length commit) then take 7 commit else []

module _ (getenv : String → Text) where
  abbrev pub is_set_to : String → String → Bool
  is_set_to name value = text_eq (getenv name) (codes value)

  unfoldable pub detect_environment : Environment
  detect_environment =
      if is_set_to "GITHUB_ACTIONS" "true"
      then Environment.github
      else if is_set_to "GITLAB_CI" "true"
      then Environment.gitlab
      else if not (is_empty (getenv "JENKINS_URL"))
      then Environment.jenkins
      else if is_set_to "CIRCLECI" "true"
      then Environment.circle_ci
      else if is_set_to "TF_BUILD" "True"
      then Environment.azure_dev_ops
      else if is_set_to "CI" "true"
      then Environment.unknown
      else Environment.local

  -- An info from the names of the variables it reads.
  abbrev pub info_from :
      Environment
      → (branch commit number : String) → (url : Text) → (repository pull_request author : String)
      → (message : Text) → CiInfo
  info_from env branch commit number url repository pull_request author message = record {
    environment = env;
    branch = getenv branch;
    commit = getenv commit;
    commit_short = short_commit (getenv commit);
    build_number = getenv number;
    build_url = url;
    repository = getenv repository;
    pull_request = getenv pull_request;
    author = getenv author;
    message = message;
  }

  abbrev pub no_info : Environment → CiInfo
  no_info env = record {
    environment = env;
    branch = [];
    commit = [];
    commit_short = [];
    build_number = [];
    build_url = [];
    repository = [];
    pull_request = [];
    author = [];
    message = [];
  }

  unfoldable pub info_of : Environment → CiInfo
  info_of Environment.github =
      info_from Environment.github "GITHUB_REF_NAME" "GITHUB_SHA" "GITHUB_RUN_NUMBER"
        (getenv "GITHUB_SERVER_URL"
          ++ (codes "/"
              ++ (getenv "GITHUB_REPOSITORY"
                  ++ (codes "/actions/runs/" ++ getenv "GITHUB_RUN_ID"))))
        "GITHUB_REPOSITORY" "GITHUB_EVENT_NAME" "GITHUB_ACTOR" []
  info_of Environment.gitlab =
      info_from Environment.gitlab "CI_COMMIT_REF_NAME" "CI_COMMIT_SHA" "CI_PIPELINE_ID"
        (getenv "CI_PIPELINE_URL") "CI_PROJECT_PATH" "CI_MERGE_REQUEST_IID" "GITLAB_USER_LOGIN"
        (getenv "CI_COMMIT_MESSAGE")
  info_of Environment.jenkins =
      record (info_from Environment.jenkins "GIT_BRANCH" "GIT_COMMIT" "BUILD_NUMBER"
        (getenv "BUILD_URL") "GIT_URL" "CHANGE_ID" "" []) { author = [] }
  info_of Environment.circle_ci =
      info_from Environment.circle_ci "CIRCLE_BRANCH" "CIRCLE_SHA1" "CIRCLE_BUILD_NUM"
        (getenv "CIRCLE_BUILD_URL") "CIRCLE_REPOSITORY_URL" "CIRCLE_PULL_REQUEST" "CIRCLE_USERNAME"
        []
  info_of Environment.azure_dev_ops =
      info_from Environment.azure_dev_ops "BUILD_SOURCEBRANCHNAME" "BUILD_SOURCEVERSION"
        "BUILD_BUILDNUMBER"
        (getenv "SYSTEM_COLLECTIONURI"
          ++ (getenv "SYSTEM_TEAMPROJECT"
              ++ (codes "/_build/results?buildId=" ++ getenv "BUILD_BUILDID")))
        "BUILD_REPOSITORY_NAME" "SYSTEM_PULLREQUEST_PULLREQUESTID" "BUILD_REQUESTEDFOR"
        (getenv "BUILD_SOURCEVERSIONMESSAGE")
  info_of Environment.unknown = no_info Environment.unknown
  info_of Environment.local = no_info Environment.local

  unfoldable pub get_ci_info : CiInfo
  get_ci_info = info_of detect_environment
