-- ===== src/Notify/Submit/Announced.antt =====
-- The job that is submitted for a request.
use relyt_ingest.Common.{◌≡◌, refl, ◌⊎◌, inl, inr, ◌<◌, Bool, true, false, [], ◌∷◌, ◌++◌, arith}
use relyt_ingest.Common.Text.{Bytes, codes}
use relyt_ingest.Config.{StagingConfig}
use relyt_ingest.Notify.{NotifyRequest}
use relyt_ingest.Notify.Options.{build_copy_options}
use relyt_ingest.Notify.Submit.{Job, job_of}

-- The text of the options: the credentials, the format, the delimiter, and the mode of an upsert.
abbrev pub IsOptions : StagingConfig → NotifyRequest → Bytes → Type 0
IsOptions cfg req text =
    (mode : Bytes) × (text
      ≡ codes "access_key_id="
        ++ (cfg.access_key_id
            ++ (codes ",secret_access_key="
                ++ (cfg.secret_access_key
                    ++ (codes ",format=csv,header=true,delimiter="
                        ++ b'"' ∷ req.delimiter ∷ b'"' ∷ mode)))))
    × (((req.upsert ≡ true) × (mode ≡ codes ",mode=upsert")) ⊎ ((req.upsert ≡ false) × (mode ≡ [])))

-- The job that announces the request, with the credentials of `cfg`, ready and of a priority that the
-- server schedules.
pub record IsJob (cfg : StagingConfig) (req : NotifyRequest) (job : Job) : Type 0 where
  pub identified : job.identifier ≡ req.identifier
  pub located : job.source_url ≡ req.source_url
  pub targeted : job.target ≡ req.target
  pub grouped : (job.serial_group ≡ req.serial_group) × (job.serial_seq ≡ req.serial_seq)
  pub retried : job.retry_max ≡ req.retry_max
  pub ready : (job.status ≡ 2) × (0 < job.priority)
  pub opted : IsOptions cfg req job.options

pub job_of-IsJob : (cfg : StagingConfig) (req : NotifyRequest) → IsJob cfg req (job_of cfg req)
unfolding job_of build_copy_options
job_of-IsJob cfg req = record {
  identified = refl;
  located = refl;
  targeted = refl;
  grouped = (refl, refl);
  retried = refl;
  ready = (refl, omega arith);
  opted = opted req.upsert refl;
}
  where
    opted : (upsert : Bool) → req.upsert ≡ upsert → IsOptions cfg req (job_of cfg req).options
    opted true e = (codes ",mode=upsert", rw e refl, inl (e, refl))
    opted false e = ([], rw e refl, inr (e, refl))
