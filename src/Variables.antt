-- ===== src/Variables.antt =====
-- squirrel_debugger/SquirrelVmHelpers.cpp and SquirrelDebugger.cpp (`SquirrelVmDataImpl`): reaching
-- and changing the variables of the VM.
pub mod Path
pub mod Types
pub mod Machine
pub mod Walk
pub mod Reach
pub mod ClassNames
pub mod Show
pub mod Children
pub mod Ends
pub mod ClassEnds
pub mod ShowEnds
pub mod Balance
pub mod Leaks
pub mod Returns
pub mod Totality
pub mod ListingTotality
pub mod LocalsTotality
pub mod Update
pub mod Lookup
pub mod LookupEnds
pub mod LookupTrip
pub mod Frames
pub mod Listing
pub mod Setting
pub mod Sorting
pub mod Counts
pub mod AnswerCounts
pub mod Pages
pub mod Tests
pub mod PageTests
pub mod TotalityTests
