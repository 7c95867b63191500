-- ===== src/Config/Tests.antt =====
-- The defaults with a customer's bucket, and masked connection strings.
use relyt_ingest.Common.{◌≡◌, ◌↔◌, refl, none}
use relyt_ingest.Common.Text.{codes}
use relyt_ingest.Config.Mask.{mask_dsn}
use relyt_ingest.Errors.{ok}
use relyt_ingest.Config.{StagingConfig, oss, customer, ClientConfig, with_staging}
use relyt_ingest.Config.Validate.{validate}
use relyt_ingest.Config.Validate.Accepted.{validate_iff}
use relyt_ingest.Config.Validate.Ranges.{IsAccepted}

abbrev pub bucket : StagingConfig
bucket = record {
  endpoint = codes "oss-cn-hangzhou.aliyuncs.com";
  bucket = codes "b";
  prefix = codes "p";
  access_key_id = codes "ak";
  secret_access_key = codes "sk";
  service = oss;
  region = none;
}

abbrev defaults : ClientConfig
defaults = with_staging (customer bucket) (codes "host=h")

validate_iff_example : (validate defaults ≡ ok tt) ↔ IsAccepted defaults
validate_iff_example = validate_iff defaults

masked_values : mask_dsn (codes "host=h Password='a b' user=u") ≡ codes "host=h Password=*** user=u"
unfolding mask_dsn
masked_values = refl

-- A password that holds `://` is printed.
scheme_in_password : mask_dsn (codes "host=h password=a://b") ≡ codes "host=h password=a://b"
unfolding mask_dsn
scheme_in_password = refl
