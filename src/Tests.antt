-- ===== src/Tests.antt =====
-- Concrete runs of the handlers of app/notes and app/auth, and of the parsers of app/parsers.
-- The digest is a stand-in for `hashlib.sha256(…).hexdigest()`: the bytes themselves.
mod Samples
mod Runs
mod UploadRuns
mod ShareRuns
mod AccountRuns
mod HistoryRuns
