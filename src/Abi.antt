-- ===== src/Abi.antt =====
-- internal/abi/gen/main.go: the generator that compiles abi.yaml into Go and C. Doc is the document and
-- its validation, Checks and Accepts what the validation accepts; Render the texts of the four files;
-- Stamp the hashed headers and Recognised their reading back; Build the run, and Verified and
-- Generates what it leaves. Lists: the column lists of the storage package.
pub mod Doc
pub mod Checks
pub mod Accepts
pub mod Stamp
pub mod Recognised
pub mod Render
pub mod Build
pub mod Verified
pub mod Generates
pub mod Lists
